-- ===== src/Compaction.antt =====
-- compaction.py: `PruneThenSummarize`
mod Tests
pub mod Estimate
pub mod Tail
pub mod Prune
pub mod Compact
pub mod Fits

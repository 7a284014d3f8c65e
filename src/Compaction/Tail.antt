-- ===== src/Compaction/Tail.antt =====
-- compaction.py, `_tail_start`: where the turns begin that a summary leaves in place.
pub mod Budget
use mathlib.Core.List.{reverse}
use tantra.Prelude.{
  ℕ, suc, ◌-◌, List, [], ◌∷◌, Option, none, some, String, Bool, drop, take, length, ltb, min, max,
  last?, if◌then◌else◌,
}
use tantra.Events.{SessionEvent, turn_started}
use tantra.Compaction.Estimate.{Codec, rough}

-- `[index for index, event in enumerate(events) if isinstance(event, TurnStarted)]`, counted from `i`
abbrev pub starts_from : ℕ → List SessionEvent → List ℕ
starts_from i [] = []
starts_from i (turn_started e ∷ es) = i ∷ starts_from (suc i) es
starts_from i (_ ∷ es) = starts_from (suc i) es

-- How a loop over starts ends: by its `return` or `break`, or at the end of the list.
pub data Scan : Type 0 where
  stopped : ℕ → Scan
  through : ℕ → Scan

abbrev pub boundary_of : Scan → ℕ
boundary_of (stopped b) = b
boundary_of (through b) = b

-- either loop of `_tail_start`, with the boundary so far
unfoldable pub scan : (ℕ → Bool) → ℕ → List ℕ → Scan
scan over boundary [] = through boundary
scan over boundary (start ∷ starts) =
    let rest = scan over start starts in if over start then stopped boundary else rest

module _ (codec : Codec) where
  abbrev pub over_budget : List SessionEvent → ℕ → ℕ → Bool
  over_budget events budget start = ltb budget (rough codec (drop start events) "")

  unfoldable pub tail_start : List SessionEvent → ℕ → ℕ → ℕ
  unfolding scan
  tail_start events budget tail_turns =
      let starts = starts_from 0 events in
      elim (last? starts) [
        | none ↦ length events
        | some last ↦
            let n = length starts in
            let preferred = min (max tail_turns 1) n in
            let over = over_budget events budget in
            let recent = take (preferred - 1) (drop (n - preferred) starts) in
            elim (scan over last (reverse recent)) [
              | stopped boundary ↦ boundary
              | through boundary ↦
                  boundary_of (scan over boundary (reverse (take (n - preferred) starts)))
            ]
      ]

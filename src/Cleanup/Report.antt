-- ===== src/Cleanup/Report.antt =====
-- cleanup.py: the report of a cleanup, and its counts.
use tantra.Prelude.{
  ℕ, ◌+◌, String, ◌≡◌, Bool, true, false, Option, List, [], ◌∷◌, arith, filter, length, map,
}

pub data CleanupOutcome : Type 0 where
  candidate deleted absent active changed failed unknown : CleanupOutcome

abbrev pub outcomes : List CleanupOutcome
outcomes = candidate ∷ deleted ∷ absent ∷ active ∷ changed ∷ failed ∷ unknown ∷ []

pub record CleanupResult : Type 0 where
  pub root_id : String
  pub outcome : CleanupOutcome
  pub error_code : Option String

pub record CleanupReport : Type 0 where
  pub results : List CleanupResult
  pub next_after : Option String
  pub error_code : Option String

abbrev pub same_outcome : CleanupOutcome → CleanupOutcome → Bool
same_outcome candidate candidate = true
same_outcome deleted deleted = true
same_outcome absent absent = true
same_outcome active active = true
same_outcome changed changed = true
same_outcome failed failed = true
same_outcome unknown unknown = true
same_outcome _ _ = false

abbrev pub count_of : List CleanupResult → CleanupOutcome → ℕ
count_of results outcome = length (filter (λ r. same_outcome r.outcome outcome) results)

-- `CleanupReport.counts`
unfoldable pub counts : CleanupReport → List (CleanupOutcome × ℕ)
counts report = map (λ outcome. (outcome, count_of report.results outcome)) outcomes

abbrev pub total : List (CleanupOutcome × ℕ) → ℕ
total [] = 0
total ((_, n) ∷ rest) = n + total rest

-- The counts of a report add up to the number of its results.
pub total-counts : (report : CleanupReport) → total (counts report) ≡ length report.results
unfolding counts
total-counts report = count_all report.results
  where
    count_all :
        (results : List CleanupResult)
        → total (map (λ outcome. (outcome, count_of results outcome)) outcomes) ≡ length results
    count_all [] = omega arith
    count_all (r ∷ results) = ground (arith, count_all results)

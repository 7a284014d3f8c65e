-- ===== src/Permissions.antt =====
-- permissions.py. `fnmatch` is `fnmatchcase` of the standard library. A permission that passed
-- `check_permission` is one of three.
mod Tests
pub mod Order
pub mod Wins
use Prim.Native.String.{count}
use tantra.Prelude.{
  ℕ, String, Bool, ◌&&◌, Option, none, some, List, [], ◌∷◌, eqb, ltb, ◌==◌, if◌then◌else◌,
}
use tantra.Prelude.Outcome.{Outcome, ok, raise, tantra_error, value_error}

pub data Permission : Type 0 where
  allow ask deny : Permission

abbrev pub strictness : Permission → ℕ
strictness allow = 0
strictness ask = 1
strictness deny = 2

unfoldable pub check_permission : String → Outcome Permission
check_permission value =
    if value == "allow"
    then ok allow
    else if value == "ask"
    then ok ask
    else if value == "deny"
    then ok deny
    else raise tantra_error

abbrev pub stricter : Permission → Permission → Permission
stricter a b = if ltb (strictness a) (strictness b) then b else a

abbrev pub strictest_after : Permission → List Permission → Permission
strictest_after best [] = best
strictest_after best (v ∷ vs) = strictest_after (stricter best v) vs

-- Python's `max` of the verdicts: the first of the strictest; of none it raises.
unfoldable pub strictest : List Permission → Outcome Permission
strictest [] = raise value_error
strictest (v ∷ vs) = ok (strictest_after v vs)

-- `matched` and `width`: before a rule matches, `None` and -1
abbrev pub Matched : Type 0
Matched = Option (Permission × ℕ)

module _ (fnmatch : String → String → Bool) (name : String) where
  -- the body of the loop
  abbrev pub weigh : Matched → String × Permission → Matched
  weigh none (pattern, value) = if fnmatch name pattern then some (value, count pattern) else none
  weigh (some (best, width)) (pattern, value) =
      if fnmatch name pattern
      then (if ltb width (count pattern)
          then some (value, count pattern)
          else if eqb (count pattern) width && ltb (strictness best) (strictness value)
          then some (value, width)
          else some (best, width))
      else some (best, width)

  abbrev pub weigh_all : Matched → List (String × Permission) → Matched
  weigh_all m [] = m
  weigh_all m (r ∷ rs) = weigh_all (weigh m r) rs

  unfoldable pub decide : List (String × Permission) → Option Permission → Permission → Permission
  decide rules tool_permission default = elim (weigh_all none rules) [
    | some (value, _) ↦ value
    | none ↦ elim tool_permission [ none ↦ default | some p ↦ p ]
  ]

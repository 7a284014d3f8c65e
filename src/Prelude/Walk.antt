-- ===== src/Prelude/Walk.antt =====
-- `for x in l: l.extend(kids(x))`: a breadth-first walk over a list that grows while it is read.
use Prim.Native.Nat.{ℕ, zero, suc}
use mathlib.Core.List.{List, [], ◌∷◌, ◌++◌}
use mathlib.Core.Option.{Option, none, some}

module _ {ℓ} {A : Type ℓ} (kids : A → List A) where
  -- The list when the loop ends; `none` means that the fuel ran out before.
  unfoldable pub walk : ℕ → List A → Option (List A)
  walk zero [] = some []
  walk zero (x ∷ queue) = none
  walk (suc fuel) [] = some []
  walk (suc fuel) (x ∷ queue) = elim (walk fuel (queue ++ kids x)) [
    | none ↦ none
    | some rest ↦ some (x ∷ rest)
  ]

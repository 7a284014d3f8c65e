-- ===== src/Prelude/Sets.antt =====
-- Python's sets of texts, as lists that are only asked for membership.
use Prim.Native.String.{String}
use mathlib.Core.Path.{◌≡◌, refl}
use mathlib.Core.Bool.{Bool, false, ◌||◌}
use mathlib.Core.List.{List, [], ◌∷◌, ◌++◌}
use native.Mathlib.Omega.{arith}
use text.Mathlib.Text.{◌==◌}

-- `s in l`
abbrev pub has : List String → String → Bool
has [] s = false
has (t ∷ l) s = t == s || has l s

pub has-append : (l m : List String) (s : String) → has (l ++ m) s ≡ (has l s || has m s)
has-append [] m s = refl
has-append (t ∷ l) m s = ground (arith, has-append l m s)

-- ===== src/Permissions/Tests.antt =====
-- decide at work. The pattern test is equality, and `*` matches every name.
use mathlib.Core.List.{Permᴰ}
use tantra.Prelude.{String, Bool, ◌||◌, ◌==◌, ◌≡◌, refl, none, inl, inr, [], ◌∷◌, arith}
use tantra.Permissions.{allow, ask, deny, decide}
use tantra.Permissions.Order.{decide-Perm}
use tantra.Permissions.Wins.{decide_wins}

abbrev matches : String → String → Bool
matches name pattern = pattern == "*" || pattern == name

decide-Perm_example :
    decide matches "read" (("*", deny) ∷ ("read", ask) ∷ []) none allow
    ≡ decide matches "read" (("read", ask) ∷ ("*", deny) ∷ []) none allow
decide-Perm_example = decide-Perm matches "read" none allow ∣ Permᴰ.swap refl refl ∣₁

decide_wins_example :
    decide matches "read" (("*", deny) ∷ ("read", ask) ∷ ("read", allow) ∷ []) none allow ≡ ask
decide_wins_example =
    decide_wins matches "read" (("*", deny) ∷ []) (("read", allow) ∷ []) "read" ask none allow refl
      (inr (inl (omega arith)), tt) (inr (inr (refl, omega arith)), tt)

-- ===== src/Permissions/Order.antt =====
-- permissions.py, `decide`: the order of the rules.
use mathlib.Core.List.{Perm, Permᴰ}
use mathlib.Core.Logic.{∥∥₁_elim}
use tantra.Prelude.{String, ◌≡◌, refl, ap, ◌∙◌, Bool, Option, none, some, List, arith}
use tantra.Permissions.{Permission, Matched, weigh, weigh_all, decide}

Permission-set : IsSet Permission
Permission-set = hlevel

module _ (fnmatch : String → String → Bool) (name : String) where
  weigh_comm :
      (m : Matched) (a b : String × Permission)
      → weigh fnmatch name (weigh fnmatch name m a) b
        ≡ weigh fnmatch name (weigh fnmatch name m b) a
  weigh_comm none (p, v) (q, w) = ground arith
  weigh_comm (some (best, width)) (p, v) (q, w) = ground arith

  weigh_all-Permᴰ :
      {rs ts : List (String × Permission)}
      → Permᴰ rs ts
      → (m : Matched) → weigh_all fnmatch name m rs ≡ weigh_all fnmatch name m ts
  weigh_all-Permᴰ Permᴰ.nil m = refl
  weigh_all-Permᴰ (Permᴰ.cons {b} {l₁} p d) m =
      ap (λ r. weigh_all fnmatch name (weigh fnmatch name m r) l₁) p
      ∙ weigh_all-Permᴰ d (weigh fnmatch name m b)
  weigh_all-Permᴰ (Permᴰ.swap {a} {b} {a'} {b'} {l} p q) m =
      ap (λ r. weigh_all fnmatch name r l)
        (weigh_comm m a b ∙ (λ i. weigh fnmatch name (weigh fnmatch name m (q i)) (p i)))
  weigh_all-Permᴰ (Permᴰ.trans d e) m = weigh_all-Permᴰ d m ∙ weigh_all-Permᴰ e m

  -- The verdict does not depend on the order of the rules, which may have patterns in common,
  -- whatever the pattern test is.
  pub decide-Perm :
      {rs ts : List (String × Permission)} (tool_permission : Option Permission)
      (default : Permission)
      → Perm rs ts
      → decide fnmatch name rs tool_permission default
        ≡ decide fnmatch name ts tool_permission default
  unfolding decide
  decide-Perm {rs} {ts} tool_permission default p =
      ∥∥₁_elim p (Permission-set _ _) (λ d. rw (weigh_all-Permᴰ d none, decide) refl)

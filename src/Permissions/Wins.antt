-- ===== src/Permissions/Wins.antt =====
-- permissions.py, `decide`: which rule it takes.
use Prim.Native.String.{count}
use tantra.Prelude.{
  ℕ, ◌≤◌, ◌<◌, String, ◌≡◌, refl, ap, ◌∙◌, ◌⊎◌, inl, inr, Bool, true, false, Option, none, some,
  List, [], ◌∷◌, ◌++◌, arith, All,
}
use tantra.Permissions.{Permission, strictness, Matched, weigh, weigh_all, decide}

strictness_injective : (v w : Permission) → strictness v ≡ strictness w → v ≡ w
strictness_injective v w e = ground arith

-- a longer pattern, or one of that length with a verdict at least as strict
abbrev pub Outranks : Permission × ℕ → Permission × ℕ → Type 0
Outranks (v, k) (w, l) = (l < k) ⊎ ((l ≡ k) × (strictness w ≤ strictness v))

abbrev AtMost : Permission × ℕ → Matched → Type 0
AtMost best none = Unit
AtMost best (some m) = Outranks best m

module _ (fnmatch : String → String → Bool) (name : String) where
  -- a rule that does not match, or one that the given one outranks
  abbrev pub IsBehind : Permission × ℕ → String × Permission → Type 0
  IsBehind best (pattern, value) =
      (fnmatch name pattern ≡ false) ⊎ Outranks best (value, count pattern)

  weigh_keeps :
      (v : Permission) (k : ℕ) (r : String × Permission)
      → IsBehind (v, k) r
      → weigh fnmatch name (some (v, k)) r ≡ some (v, k)
  weigh_keeps v k (p, w) (inl e) = ground arith
  weigh_keeps v k (p, w) (inr o) = ground arith

  weigh_all_keeps :
      (v : Permission) (k : ℕ) (rs : List (String × Permission))
      → All (IsBehind (v, k)) rs
      → weigh_all fnmatch name (some (v, k)) rs ≡ some (v, k)
  weigh_all_keeps v k [] _ = refl
  weigh_all_keeps v k (r ∷ rs) (b, bs) = rw (weigh_keeps v k r b) (weigh_all_keeps v k rs bs)

  weigh-AtMost :
      (v : Permission) (k : ℕ) (m : Matched) (r : String × Permission)
      → AtMost (v, k) m
      → IsBehind (v, k) r
      → AtMost (v, k) (weigh fnmatch name m r)
  weigh-AtMost v k none (p, w) a b = ground arith
  weigh-AtMost v k (some (best, width)) (p, w) a b = ground arith

  weigh_takes :
      (v : Permission) (p : String) (m : Matched)
      → fnmatch name p ≡ true
      → AtMost (v, count p) m
      → weigh fnmatch name m (p, v) ≡ some (v, count p)
  weigh_takes v p none e a = ground arith
  weigh_takes v p (some (best, width)) e a = let s = strictness_injective v best in ground arith

  weigh_all_takes :
      (v : Permission) (p : String) (before after : List (String × Permission)) (m : Matched)
      → fnmatch name p ≡ true
      → AtMost (v, count p) m
      → All (IsBehind (v, count p)) before
      → All (IsBehind (v, count p)) after
      → weigh_all fnmatch name m (before ++ (p, v) ∷ after) ≡ some (v, count p)
  weigh_all_takes v p [] after m e a _ bs =
      ap (λ m. weigh_all fnmatch name m after) (weigh_takes v p m e a)
      ∙ (weigh_all_keeps v (count p) after bs)
  weigh_all_takes v p (r ∷ rs) after m e a (b, bs) cs =
      weigh_all_takes v p rs after (weigh fnmatch name m r) e (weigh-AtMost v (count p) m r a b) bs
        cs

  -- A matching rule decides when every other rule, before it or after it, does not match or has a
  -- shorter pattern, or one of that length with a verdict no stricter.
  pub decide_wins :
      (before after : List (String × Permission)) (pattern : String) (value : Permission)
      (tool_permission : Option Permission) (default : Permission)
      → fnmatch name pattern ≡ true
      → All (IsBehind (value, count pattern)) before
      → All (IsBehind (value, count pattern)) after
      → decide fnmatch name (before ++ (pattern, value) ∷ after) tool_permission default ≡ value
  unfolding decide
  decide_wins before after pattern value tool_permission default e bs cs =
      rw (weigh_all_takes value pattern before after none e tt bs cs, decide) refl

-- ===== src/Prelude/Stateful.antt =====
-- Code that changes a state `S` and may raise. What it did before it raised stays done.
use mathlib.Core.Path.{◌≡◌, sym, ap, ◌∙◌}
use mathlib.Core.Logic.{inl, inr}
use native.Mathlib.Omega.{arith}
use tantra.Prelude.Outcome.{Outcome, Error, ok, raise, Outcome-cases}

abbrev pub Does : Type 0 → Type 0 → Type 0
Does S A = S → Outcome A × S

infixl 5 ◌>>=◌
abbrev pub ◌>>=◌ : {S A B : Type 0} → Does S A → (A → Does S B) → Does S B
(m >>= f) s = let (r, s') = m s in elim r [ ok a ↦ f a s' | raise x ↦ (raise x, s') ]

infixl 5 ◌>>◌
abbrev pub ◌>>◌ : {S B : Type 0} → Does S (Unit {0}) → Does S B → Does S B
m >> k = m >>= λ _. k

abbrev pub pure : {S A : Type 0} → A → Does S A
pure a s = (ok a, s)

abbrev pub fail : {S A : Type 0} → Error → Does S A
fail x s = (raise x, s)

pub bind-ok :
    {S A B : Type 0} (m : Does S A) (f : A → Does S B) (s s' : S) (a : A)
    → m s ≡ (ok a, s')
    → (m >>= f) s ≡ f a s'
bind-ok {S} {A} m f s s' a h =
    ap (λ (x : Outcome A × S). (elim x.0 [ ok b ↦ f b x.1 | raise e ↦ (raise e, x.1) ])) h

pub bind-raise :
    {S A B : Type 0} (m : Does S A) (f : A → Does S B) (s s' : S) (e : Error)
    → m s ≡ (raise e, s')
    → (m >>= f) s ≡ (raise e, s')
bind-raise {S} {A} m f s s' e h =
    ap (λ (x : Outcome A × S). (elim x.0 [ ok b ↦ f b x.1 | raise e ↦ (raise e, x.1) ])) h

-- Where a chain returns, its first statement returned and the rest returned.
pub bind-inverse :
    {S A B : Type 0} (m : Does S A) (f : A → Does S B) (s s' : S) (b : B)
    → (m >>= f) s ≡ (ok b, s')
    → (a : A) × (mid : S) × (m s ≡ (ok a, mid)) × (f a mid ≡ (ok b, s'))
bind-inverse {S} {A} {B} m f s s' b h = elim (Outcome-cases (m s).0) [
  | inl (a, p) ↦ (
    a,
    (m s).1,
    (ap (λ (r : Outcome A). (r, (m s).1)) p),
    sym (bind-ok m f s (m s).1 a (ap (λ (r : Outcome A). (r, (m s).1)) p)) ∙ h,
  )
  | inr (e, p) ↦
      let q : raise e ≡ ok b =
        ap (λ (x : Outcome B × S). x.0)
          (sym (bind-raise m f s (m s).1 e (ap (λ (r : Outcome A). (r, (m s).1)) p)) ∙ h) in
      absurd (ground arith)
]

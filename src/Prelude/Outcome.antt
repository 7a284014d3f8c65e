-- ===== src/Prelude/Outcome.antt =====
-- errors.py: what a call returns or raises. Of an exception its class and the text it names are
-- kept, a message in prose is not.
use Prim.Native.String.{String}
use mathlib.Core.Logic.{◌⊎◌, inl, inr}
use mathlib.Core.Bool.{Bool, true, false}
use mathlib.Core.List.{List, [], ◌∷◌}
use mathlib.Core.Option.{Option, none, some}
use mathlib.Core.Path.{◌≡◌, refl}

pub data Error : Type 0 where
  session_not_found : Option String → Error
  session_exists : String → Error
  session_busy : String → Error
  lease_lost : String → Error
  writer_replaced : String → Error
  coordinator_unavailable : Error
  remote_execution : Option String → Error
  invalid_command_reuse : String → Error
  cleanup_changed : Error
  provider_error : Error
  tantra_error : Error
  value_error : Error
  type_error : Error
  key_error : Error
  -- no exception: the loop does not end
  no_end : Error

pub data Outcome {ℓ} (A : Type ℓ) : Type ℓ where
  ok : A → Outcome A
  raise : Error → Outcome A

infixl 5 ◌>>=◌
abbrev pub ◌>>=◌ {ℓ κ} : {A : Type ℓ} {B : Type κ} → Outcome A → (A → Outcome B) → Outcome B
ok a >>= f = f a
raise e >>= f = raise e

pub Outcome-cases {ℓ} :
    {A : Type ℓ} (o : Outcome A) → ((a : A) × (o ≡ ok a)) ⊎ ((e : Error) × (o ≡ raise e))
Outcome-cases (ok a) = inl (a, refl)
Outcome-cases (raise e) = inr (e, refl)

abbrev pub or_raise {ℓ} : {A : Type ℓ} → Option A → Error → Outcome A
or_raise none e = raise e
or_raise (some a) _ = ok a

abbrev pub raise_if : Bool → Error → Outcome (Unit {0})
raise_if true e = raise e
raise_if false _ = ok tt

infixl 5 ◌>>◌
abbrev pub ◌>>◌ {ℓ} : {B : Type ℓ} → Outcome (Unit {0}) → Outcome B → Outcome B
m >> k = m >>= λ _. k

-- `[f(x) for x in l]`, where `f` may raise
unfoldable pub traverse {ℓ κ} :
    {A : Type ℓ} {B : Type κ} → (A → Outcome B) → List A → Outcome (List B)
traverse f [] = ok []
traverse f (x ∷ xs) = do y ← f x; ys ← traverse f xs; ok (y ∷ ys)

-- ===== src/Turn/Owing.antt =====
-- Calls that are owed a completion, and code that pays them. `j` calls under an id are owed before
-- and `k` after, and the events that are written make up for the difference.
use tantra.Prelude.{ℕ, ◌+◌, ◌≤◌, String, ◌≡◌, ap, sym, ◌∙◌, subst, Bool, List, ◌++◌, arith}
use tantra.Prelude.Outcome.{Outcome, Error, ok}
use tantra.Prelude.Stateful.{◌>>=◌, pure, fail, bind-inverse}
use tantra.Events.{SessionEvent}
use tantra.Turn.{Act, Engine, append}
use tantra.Turn.Counts.{requests, completions, is_request, is_completion, total-append}

module _ (id : String) where
  abbrev pub Owes : ℕ → ℕ → Engine → Engine → Type 0
  Owes j k s t =
      requests id t.log + completions id s.log + j ≤ completions id t.log + requests id s.log + k

  pub record Owing {A : Type 0} (j : ℕ) (k : A → ℕ) (m : Act A) : Type 0 where
    pub after : (s : Engine) (a : A) (t : Engine) → m s ≡ (ok a, t) → Owes j (k a) s t

  pub Owing-bind :
      {A B : Type 0} (j : ℕ) (k : A → ℕ) (l : B → ℕ) (m : Act A) (f : A → Act B)
      → Owing j k m
      → ((a : A) → Owing (k a) l (f a))
      → Owing j l (m >>= f)
  Owing-bind j k l m f h g = record {
    after = λ s b u p.
        let (a, t, q, r) = bind-inverse m f s u b p in
        let x : Owes j (k a) s t = h.after s a t q in
        let y : Owes (k a) (l b) t u = (g a).after t b u r in omega arith;
  }

  -- code that reads the engine first
  pub Owing-read :
      {A : Type 0} (j : ℕ) (k : A → ℕ) (m : Engine → Act A)
      → ((s : Engine) → Owing j k (m s))
      → Owing j k (λ s. m s s)
  Owing-read j k m h = record { after = λ s a t p. (h s).after s a t p }

  -- what writes nothing
  pub Owing-still :
      {A : Type 0} (j : ℕ) (m : Act A) → ((s : Engine) → (m s).1.log ≡ s.log) → Owing j (λ _. j) m
  Owing-still {A} j m h = record {
    after = λ s a t p.
        let q : t.log ≡ s.log = sym (ap (λ (x : Outcome A × Engine). x.1.log) p) ∙ h s in
        rw q (omega arith);
  }

  pub Owing-pure : {A : Type 0} (k : A → ℕ) (a : A) → Owing (k a) k (pure a)
  Owing-pure {A} k a = record {
    after = λ s b t p.
        let q : a ≡ b = ground arith in
        let r : s ≡ t = ground arith in
        subst (λ c. Owes (k a) (k c) s t) q (subst (λ u. Owes (k a) (k a) s u) r (omega arith));
  }

  pub Owing-fail : {A : Type 0} (j : ℕ) (k : A → ℕ) (e : Error) → Owing {A = A} j k (fail e)
  Owing-fail j k e = record { after = λ s a t p. absurd (ground arith) }

  pub Owing-append :
      (compacts : Bool) (events : List SessionEvent) (j k : ℕ)
      → requests id events + j ≤ completions id events + k
      → Owing j (λ _. k) (append compacts events)
  unfolding append
  Owing-append compacts events j k h = record {
    after = λ s a t p.
        let q : t.log ≡ s.log ++ events =
          sym (ap (λ (x : Outcome (Unit {0}) × Engine). x.1.log) p) in
        let x = total-append (is_request id) s.log events in
        let y = total-append (is_completion id) s.log events in rw q (omega arith);
  }

  -- calls that the code does not touch stay owed
  pub Owing-frame :
      {A : Type 0} (n j : ℕ) (k : A → ℕ) (m : Act A) → Owing j k m → Owing (j + n) (λ a. k a + n) m
  Owing-frame n j k m h = record {
    after = λ s a t p. let x : Owes j (k a) s t = h.after s a t p in omega arith;
  }

  pub Owing-weaken :
      {A : Type 0} (i j : ℕ) (k l : A → ℕ) (m : Act A)
      → i ≤ j
      → ((a : A) → k a ≤ l a)
      → Owing j k m
      → Owing i l m
  Owing-weaken i j k l m p q h = record {
    after = λ s a t r. let x : Owes j (k a) s t = h.after s a t r in let y = q a in omega arith;
  }

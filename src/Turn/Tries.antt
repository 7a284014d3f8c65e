-- ===== src/Turn/Tries.antt =====
-- How often a sample is tried.
use tantra.Prelude.{
  ℕ, zero, suc, ◌+◌, ◌-◌, ◌≤◌, ◌<◌, max, ◌≡◌, ◌≢◌, refl, ap, sym, ◌∙◌, subst, Bool, true, false,
  ◌||◌, not, Option, none, some, List, [], ◌∷◌, arith, inl, inr, leb, Bool-cases, if◌then◌else◌,
}
use tantra.Prelude.Outcome.{Outcome, Error, raise, Outcome-cases, provider_error, no_end}
use tantra.Prelude.Stateful.{◌>>=◌, pure, fail, bind-ok, bind-raise}
use tantra.Events.{SessionEvent}
use tantra.Messages.{StreamEnd, SampleRequest}
use tantra.Turn.{Act, Engine, RetryConfig, is_retryable, append}
use tantra.Turn.Stream.{Yielded, batch, ended, stream_events, no_events}
use tantra.Turn.Sampling.{
  Streamed, Verdict, gives, breaks, verdict, send, write_all, listen, Again, resume, on_overflow,
  on_break, on_verdict, try_once, sample, sample_once,
}

-- At most `n` requests are sent, whatever happens, and the code ends.
pub record Sends {A : Type 0} (n : ℕ) (m : Act A) : Type 0 where
  pub calls : (s : Engine) → (m s).1.calls_made ≤ s.calls_made + n
  pub stops : (s : Engine) → (m s).0 ≢ raise no_end

Sends-bind :
    {A B : Type 0} (n k : ℕ) (m : Act A) (f : A → Act B)
    → Sends n m
    → ((a : A) → Sends k (f a))
    → Sends (n + k) (m >>= f)
Sends-bind {A} {B} n k m f h g = record {
  calls = λ s. elim (Outcome-cases (m s).0) [
    | inl (a, p) ↦
        let q : (m >>= f) s ≡ f a (m s).1 = bind-ok m f s (m s).1 a (λ i. (p i, (m s).1)) in
        let x = h.calls s in
        let y = (g a).calls (m s).1 in
        subst (λ (z : Outcome B × Engine). z.1.calls_made ≤ s.calls_made + (n + k)) (sym q)
          (omega arith)
    | inr (e, p) ↦
        let q : (m >>= f) s ≡ (raise e, (m s).1) =
          bind-raise m f s (m s).1 e (λ i. (p i, (m s).1)) in
        let x = h.calls s in
        subst (λ (z : Outcome B × Engine). z.1.calls_made ≤ s.calls_made + (n + k)) (sym q)
          (omega arith)
  ];
  stops = λ s. elim (Outcome-cases (m s).0) [
    | inl (a, p) ↦
        let q : (m >>= f) s ≡ f a (m s).1 = bind-ok m f s (m s).1 a (λ i. (p i, (m s).1)) in
        subst (λ (z : Outcome B × Engine). z.0 ≢ raise no_end) (sym q) ((g a).stops (m s).1)
    | inr (e, p) ↦
        let q : (m >>= f) s ≡ (raise e, (m s).1) =
          bind-raise m f s (m s).1 e (λ i. (p i, (m s).1)) in
        subst (λ (z : Outcome B × Engine). z.0 ≢ raise no_end) (sym q)
          (λ r. let w : e ≡ no_end = ground arith in h.stops s (p ∙ ap raise w))
  ];
}

Sends-read :
    {A : Type 0} (n : ℕ) (m : Engine → Act A)
    → ((s : Engine) → Sends n (m s))
    → Sends n (λ s. m s s)
Sends-read n m h = record { calls = λ s. (h s).calls s; stops = λ s. (h s).stops s }

Sends-pure : {A : Type 0} (n : ℕ) (a : A) → Sends n (pure a)
Sends-pure n a = record { calls = λ s. omega arith; stops = λ s p. absurd (ground arith) }

Sends-fail : {A : Type 0} (n : ℕ) (e : Error) → e ≢ no_end → Sends {A = A} n (fail e)
Sends-fail n e h = record { calls = λ s. omega arith; stops = λ s p. h (ground arith) }

Sends-append : (compacts : Bool) (events : List SessionEvent) → Sends 0 (append compacts events)
unfolding append
Sends-append compacts events = record {
  calls = λ s. omega arith;
  stops = λ s p. absurd (ground arith);
}

Sends-weaken : {A : Type 0} (n k : ℕ) (m : Act A) → n ≤ k → Sends n m → Sends k m
Sends-weaken n k m p h = record { calls = λ s. let x = h.calls s in omega arith; stops = h.stops }

module _ (compacts batches : Bool) (size_of : SessionEvent → ℕ) (retry : RetryConfig)
    (stream : Engine → SampleRequest → Streamed) (recover : Act (Option SampleRequest))
    (h : Sends 0 recover) where
  -- the tries that are left
  abbrev tries : ℕ → Bool → ℕ
  tries failures recovered = max 1 (retry.max_attempts - failures) + (if recovered then 0 else 1)

  write_all-Sends :
      (ys : List Yielded) (end : Option StreamEnd) (persisted : Bool)
      → Sends 0 (write_all compacts batches size_of retry stream recover ys end persisted)
  write_all-Sends [] end persisted = Sends-pure 0 (end, persisted)
  write_all-Sends (batch es ∷ ys) end persisted = Sends-weaken (0 + 0) 0 _ (omega arith) (
      Sends-bind 0 0 (append compacts es)
        (λ _. write_all compacts batches size_of retry stream recover ys end true)
        (Sends-append compacts es) (λ _. write_all-Sends ys end true))
  write_all-Sends (ended e ∷ ys) end persisted = write_all-Sends ys (some e) persisted

  -- Every further try is one less.
  abbrev Bounded : Again compacts batches size_of retry stream recover → ℕ → Type 0
  Bounded again fuel =
      (failures : ℕ) (recovered persisted : Bool) (req : SampleRequest)
      → tries failures recovered ≤ fuel
      → Sends (tries failures recovered) (again failures recovered persisted req)

  resume-Sends :
      (again : Again compacts batches size_of retry stream recover) (fuel failures : ℕ)
      (persisted : Bool) (replacement : Option SampleRequest)
      → Bounded again fuel
      → tries failures true ≤ fuel
      → Sends (tries failures true) (
          resume compacts batches size_of retry stream recover again failures persisted replacement)
  resume-Sends again fuel failures persisted none k l =
      Sends-fail _ provider_error (λ p. absurd (ground arith))
  resume-Sends again fuel failures persisted (some replaced) k l =
      k failures true persisted replaced l

  on_overflow-Sends :
      (again : Again compacts batches size_of retry stream recover) (fuel failures : ℕ)
      (recovered persisted blocked : Bool)
      → Bounded again fuel
      → tries failures recovered ≤ suc fuel
      → persisted || recovered ≡ blocked
      → Sends (tries failures recovered - 1) (
          on_overflow compacts batches size_of retry stream recover again failures persisted
            blocked)
  on_overflow-Sends again fuel failures recovered persisted true k l p =
      Sends-fail _ provider_error (λ q. absurd (ground arith))
  on_overflow-Sends again fuel failures true persisted false k l p = absurd (ground arith)
  on_overflow-Sends again fuel failures false persisted false k l p =
      Sends-weaken (0 + tries failures true) (tries failures false - 1)
        (recover >>= resume compacts batches size_of retry stream recover again failures persisted)
        (omega arith)
        (Sends-bind 0 (tries failures true) recover
          (resume compacts batches size_of retry stream recover again failures persisted) h
          (λ replacement. resume-Sends again fuel failures persisted replacement k (omega arith)))

  on_break-Sends :
      (again : Again compacts batches size_of retry stream recover) (fuel failures : ℕ)
      (recovered persisted : Bool) (req : SampleRequest) (overflow final : Bool)
      → Bounded again fuel
      → tries failures recovered ≤ suc fuel
      → (final ≡ false → suc failures < retry.max_attempts)
      → Sends (tries failures recovered - 1) (
          on_break compacts batches size_of retry stream recover again failures recovered persisted
            req overflow final)
  on_break-Sends again fuel failures recovered persisted req true final k l p =
      on_overflow-Sends again fuel failures recovered persisted (persisted || recovered) k l refl
  on_break-Sends again fuel failures recovered persisted req false true k l p =
      Sends-fail _ provider_error (λ q. absurd (ground arith))
  on_break-Sends again fuel failures recovered persisted req false false k l p =
      let more : suc failures < retry.max_attempts = p refl in
      Sends-weaken (tries (suc failures) recovered) (tries failures recovered - 1)
        (again (suc failures) recovered persisted req) (omega arith)
        (k (suc failures) recovered persisted req (omega arith))

  on_verdict-Sends :
      (again : Again compacts batches size_of retry stream recover) (fuel failures : ℕ)
      (recovered persisted : Bool) (req : SampleRequest) (v : Verdict)
      → Bounded again fuel
      → tries failures recovered ≤ suc fuel
      → Sends (tries failures recovered - 1) (
          on_verdict compacts batches size_of retry stream recover again failures recovered
            persisted req v)
  on_verdict-Sends again fuel failures recovered persisted req (gives end) k l = Sends-pure _ end
  on_verdict-Sends again fuel failures recovered persisted req (breaks exc) k l =
      on_break-Sends again fuel failures recovered persisted req exc.context_overflow
        (leb retry.max_attempts (suc failures) || not (is_retryable exc)) k l
        (λ p. elim (Bool-cases (leb retry.max_attempts (suc failures))) [
          | inl q ↦ absurd (ground arith)
          | inr q ↦ ground arith
        ])

  try_once-Sends :
      (again : Again compacts batches size_of retry stream recover) (fuel failures : ℕ)
      (recovered persisted : Bool) (req : SampleRequest) (engine : Engine)
      → Bounded again fuel
      → tries failures recovered ≤ suc fuel
      → Sends (tries failures recovered - 1) (
          try_once compacts batches size_of retry stream recover again failures recovered persisted
            req engine)
  try_once-Sends again fuel failures recovered persisted req engine k l =
      let n : ℕ = tries failures recovered - 1 in
      let next : Option StreamEnd × Bool → Act StreamEnd = λ heard.
        on_verdict compacts batches size_of retry stream recover again failures recovered heard.1
          req (verdict (stream engine req).failure heard.0) in
      let hear : Act (Option StreamEnd × Bool) =
        listen compacts batches size_of retry stream recover req engine persisted in
      Sends-weaken (0 + n) n (hear >>= next) (omega arith) (
        Sends-bind 0 n hear next
          (write_all-Sends (stream_events batches size_of (stream engine req).moments no_events)
            none persisted)
          (λ heard.
            on_verdict-Sends again fuel failures recovered heard.1 req
              (verdict (stream engine req).failure heard.0) k l))

  sample-Sends :
      (fuel : ℕ) → Bounded (sample compacts batches size_of retry stream recover fuel) fuel
  unfolding sample
  sample-Sends zero failures recovered persisted req l = absurd (omega arith)
  sample-Sends (suc fuel) failures recovered persisted req l =
      let n : ℕ = tries failures recovered - 1 in
      let again = sample compacts batches size_of retry stream recover fuel in
      let go : Engine → Act StreamEnd =
        try_once compacts batches size_of retry stream recover again failures recovered persisted
          req in
      Sends-weaken (1 + n) (tries failures recovered) (send >>= λ _. λ engine. go engine engine)
        (omega arith)
        (Sends-bind 1 n send (λ _. λ engine. go engine engine)
          (record { calls = λ s. omega arith; stops = λ s p. absurd (ground arith) })
          (λ _. Sends-read n go (λ engine.
            try_once-Sends again fuel failures recovered persisted req engine (sample-Sends fuel)
              l)))

  -- A sample ends after at most as many requests as the tries that are configured, of which there is
  -- at least one, and one more after a compaction, whatever the provider answers, where the
  -- compaction itself ends and sends no request of the turn.
  pub sample_once-Sends :
      (req : SampleRequest)
      → Sends
          (max 1 retry.max_attempts + 1)
          (sample_once compacts batches size_of retry stream recover req)
  unfolding sample_once
  sample_once-Sends req =
      Sends-weaken (tries 0 false) (max 1 retry.max_attempts + 1)
        (sample_once compacts batches size_of retry stream recover req) (omega arith)
        (sample-Sends (suc (suc retry.max_attempts)) 0 false false req (omega arith))

-- ===== src/Turn/Ends.antt =====
-- A turn that returns has ended in the journal.
use tantra.Prelude.{
  ℕ, zero, suc, String, ◌≡◌, ◌≢◌, refl, ap, sym, ◌∙◌, subst, Bool, true, false, Option, none, some,
  List, [], ◌∷◌, ◌++◌, arith, leb, is_some, has, has-append, eq_refl, inl, inr, ◌⊎◌, Bool-cases,
  last?, filter, filter_map, filter_map-snoc_some, find_last, append_assoc,
}
use tantra.Prelude.Outcome.{Outcome, Error, ok, raise, provider_error, tantra_error}
use tantra.Prelude.Stateful.{◌>>=◌, fail, bind-inverse}
use tantra.Json.{Json}
use tantra.Events.{SessionEvent, TurnStarted, turn_started, turn_failed}
use tantra.Journal.{reduce_journal, terminal_id, as_started, unfinished}
use tantra.Turn.{Act, Engine, append}
use tantra.Turn.Parts.{Request}
use tantra.Turn.Setup.{Setup}
use tantra.Turn.Batch.{run_batch}
use tantra.Turn.Finishing.{finish-inverse}
use tantra.Turn.Drive.{
  Sampler, call_hooks, finish, take_sample, after_batch, after_sample, drive, or_failed,
  drive_or_fail, load_ids, run_once, run,
}

module _ (turn_id : String) where
  -- the last event is the result, and ends the turn
  pub record Ended (e : SessionEvent) (t : Engine) : Type 0 where
    pub before : List SessionEvent
    pub last : t.log ≡ before ++ e ∷ []
    pub ends : terminal_id e ≡ some turn_id
    pub kept : t.terminal ≡ some e

  pub record Ending (m : Act SessionEvent) : Type 0 where
    pub after : (s : Engine) (e : SessionEvent) (t : Engine) → m s ≡ (ok e, t) → Ended e t

  Ending-bind :
      {A : Type 0} (m : Act A) (f : A → Act SessionEvent)
      → ((a : A) → Ending (f a))
      → Ending (m >>= f)
  Ending-bind m f h = record {
    after = λ s e u p. let (a, t, q, r) = bind-inverse m f s u e p in (h a).after t e u r;
  }

  Ending-fail : (x : Error) → Ending (fail x)
  Ending-fail x = record { after = λ s e t p. absurd (ground arith) }

  module _ (setup : Setup) (sampler : Sampler) where
    finish-Ending :
        (e : SessionEvent) → terminal_id e ≡ some turn_id → Ending (finish setup sampler turn_id e)
    finish-Ending e h = record {
      after = λ s d t p.
          let (same, written, kept) = finish-inverse setup sampler turn_id e d s t p in
          record {
            before = s.log;
            last = written ∙ ap (λ x. s.log ++ x ∷ []) same;
            ends = subst (λ x. terminal_id x ≡ some turn_id) same h;
            kept = kept ∙ ap some same;
          };
    }

    after_batch-Ending :
        (capped : Bool) (on : Act SessionEvent) (output : Option Json)
        → Ending on
        → Ending (after_batch setup sampler turn_id capped on output)
    unfolding after_batch
    after_batch-Ending capped on (some output) h = finish-Ending _ refl
    after_batch-Ending true on none h = finish-Ending _ refl
    after_batch-Ending false on none h = h

    after_sample-Ending :
        (capped : Bool) (on : Act SessionEvent) (rs : List Request)
        → Ending on
        → Ending (after_sample setup sampler turn_id capped on rs)
    unfolding after_sample
    after_sample-Ending capped on [] h = finish-Ending _ refl
    after_sample-Ending capped on (r ∷ rs) h =
        Ending-bind (run_batch setup capped (r ∷ rs)) (after_batch setup sampler turn_id capped on)
          (λ output. after_batch-Ending capped on output h)

    drive-Ending : (left number : ℕ) → Ending (drive setup sampler turn_id left number)
    unfolding drive
    drive-Ending zero number = finish-Ending _ refl
    drive-Ending (suc left) number =
        let on = drive setup sampler turn_id left (suc number) in
        Ending-bind (take_sample setup sampler turn_id number)
          (after_sample setup sampler turn_id (leb sampler.max_steps (suc number)) on)
          (λ rs.
            after_sample-Ending (leb sampler.max_steps (suc number)) on rs
              (drive-Ending left (suc number)))

    or_failed-Ended :
        (result : Outcome SessionEvent) (s t : Engine) (e : SessionEvent)
        → or_failed setup sampler turn_id result s ≡ (ok e, t)
        → ((d : SessionEvent) → result ≡ ok d → Ended d s)
        → Ended e t
    unfolding or_failed
    or_failed-Ended (ok d) s t e p h =
        subst
          (λ (x : Outcome SessionEvent × Engine). Ended (elim x.0 [ ok y ↦ y | raise z ↦ d ]) x.1) p
          (h d refl)
    or_failed-Ended (raise provider_error) s t e p h =
        (finish-Ending (turn_failed (record { turn_id = turn_id; error = sampler.error_text s }))
            refl).after
          s e t p
    or_failed-Ended (raise x) s t e p h = absurd (ground arith)

    drive_or_fail-Ending : Ending (drive_or_fail setup sampler turn_id)
    unfolding drive_or_fail
    drive_or_fail-Ending = record {
      after = λ s e t p.
          let ran : Outcome SessionEvent × Engine =
            drive setup sampler turn_id sampler.max_steps 0 s in
          or_failed-Ended ran.0 ran.1 t e p
            (λ d q. (drive-Ending sampler.max_steps 0).after s d ran.1 (λ i. (q i, ran.1)));
    }

    run_once-Ending :
        (ended : Bool) (input : String) → Ending (run_once setup sampler turn_id ended input)
    unfolding run_once
    run_once-Ending true input = Ending-fail tantra_error
    run_once-Ending false input =
        Ending-bind
          (append setup.compacts (turn_started (record { turn_id = turn_id; input = input }) ∷ []))
          (λ _. call_hooks setup sampler turn_id (λ hook. hook.before_turn) setup.hooks >>= λ _.
            drive_or_fail setup sampler turn_id)
          (λ _.
            Ending-bind (call_hooks setup sampler turn_id (λ hook. hook.before_turn) setup.hooks)
              (λ _. drive_or_fail setup sampler turn_id) (λ _. drive_or_fail-Ending))

    run-Ended :
        (input : String) (s t : Engine) (e : SessionEvent)
        → run setup sampler turn_id input s ≡ (ok e, t)
        → Ended e t
    unfolding run
    run-Ended input s t e p =
        (run_once-Ending (is_some s.terminal) input).after (load_ids setup sampler turn_id s).1 e t
          p

last-cons {ℓ} :
    {A : Type ℓ} (y : A) (l : List A) (x : A)
    → last? (y ∷ l) ≡ some x
    → (y ≡ x) ⊎ (last? l ≡ some x)
last-cons y [] x h = inl (ground arith)
last-cons y (z ∷ l) x h = inr h

last-snoc {ℓ} : {A : Type ℓ} (xs : List A) (x : A) → last? (xs ++ x ∷ []) ≡ some x
last-snoc [] x = refl
last-snoc (y ∷ []) x = refl
last-snoc (y ∷ z ∷ xs) x = last-snoc (z ∷ xs) x

-- the last of the elements that pass
last_passes {ℓ} :
    {A : Type ℓ} (p : A → Bool) (xs : List A) (x : A) → find_last p xs ≡ some x → p x ≡ true
last_passes p [] x h = absurd (ground arith)
last_passes p (y ∷ ys) x h = elim (Bool-cases (p y)) [
  | inr q ↦ let k : find_last p ys ≡ some x = rw q at h in last_passes p ys x k
  | inl q ↦
      let k : last? (y ∷ filter p ys) ≡ some x = rw q at h in
      elim (last-cons y (filter p ys) x k) [
        | inl same ↦ ground arith
        | inr l ↦ last_passes p ys x l
      ]
]

has-terminal :
    (journal : List SessionEvent) (turn_id : String) (t : Engine) (e : SessionEvent)
    → Ended turn_id e t
    → has (filter_map terminal_id (journal ++ t.log)) turn_id ≡ true
has-terminal journal turn_id t e h =
    let p : journal ++ t.log ≡ (journal ++ h.before) ++ e ∷ [] =
      ap (λ l. journal ++ l) h.last ∙ sym (append_assoc journal h.before (e ∷ [])) in
    let q = filter_map-snoc_some terminal_id (journal ++ h.before) e h.ends in
    let r = has-append (filter_map terminal_id (journal ++ h.before)) (turn_id ∷ []) turn_id in
    rw p (rw q (ground (arith, r, eq_refl turn_id)))

-- Whatever a turn did, when `run` returns, the event that it returns is the last in the journal, ends
-- the turn and is what the engine keeps as its end. In a journal that goes on with what was written,
-- the turn is not the one that is incomplete.
pub run_settles :
    (setup : Setup) (sampler : Sampler) (turn_id input : String) (journal : List SessionEvent)
    (s t : Engine) (e : SessionEvent) (u : TurnStarted)
    → run setup sampler turn_id input s ≡ (ok e, t)
    → (reduce_journal (journal ++ t.log)).incomplete ≡ some u
    → (u.turn_id ≢ turn_id)
      × (last? t.log ≡ some e)
      × (terminal_id e ≡ some turn_id)
      × (t.terminal ≡ some e)
unfolding reduce_journal
run_settles setup sampler turn_id input journal s t e u p q =
    let h = run-Ended turn_id setup sampler input s t e p in
    let terminals = filter_map terminal_id (journal ++ t.log) in
    let r : unfinished terminals u ≡ true =
      last_passes (unfinished terminals) (filter_map as_started (journal ++ t.log)) u q in
    (
      (λ same. absurd (
          let f : has terminals u.turn_id ≡ true =
            subst (λ x. has terminals x ≡ true) (sym same) (has-terminal journal turn_id t e h) in
          ground arith)),
      ap last? h.last ∙ last-snoc h.before e,
      h.ends,
      h.kept,
    )

-- ===== src/Turn/Completes.antt =====
-- Every call of a turn that completes has its completion in the journal.
use tantra.Prelude.{
  ℕ, zero, suc, ◌≤◌, String, ◌≡◌, ap, Bool, true, false, Option, none, some, List, [], ◌∷◌, arith,
  leb, is_some,
}
use tantra.Prelude.Outcome.{Outcome, ok, raise, provider_error}
use tantra.Prelude.Stateful.{◌>>=◌, bind-inverse}
use tantra.Json.{Json}
use tantra.Events.{
  SessionEvent, TurnCompleted, TurnFailed, turn_started, turn_completed, turn_failed,
}
use tantra.Turn.{Act, Engine, append}
use tantra.Turn.Counts.{requests, completions, total, owed_requests}
use tantra.Turn.Owing.{Owes, Owing, Owing-bind}
use tantra.Turn.Pairing.{run_batch-Owing}
use tantra.Turn.Parts.{Request}
use tantra.Turn.Setup.{Setup}
use tantra.Turn.Batch.{run_batch}
use tantra.Turn.Drive.{
  Sampler, call_hooks, finish, take_sample, after_batch, after_sample, drive, or_failed,
  drive_or_fail, load_ids, run_once, run,
}
use tantra.Turn.Finishing.{finish-inverse}
use tantra.Turn.Quiet.{IsQuiet, append-Keeps, call_hooks-Keeps, finish-Keeps, take_sample-Owing}

module _ (setup : Setup) (sampler : Sampler) (turn_id id : String)
    (quiet : IsQuiet id sampler.compactor) where
  abbrev Keeps : {A : Type 0} → Act A → Type 0
  Keeps = Owing id 0 (λ _. 0)

  after_batch-Keeps :
      (capped : Bool) (on : Act SessionEvent) (output : Option Json)
      → Keeps on
      → Keeps (after_batch setup sampler turn_id capped on output)
  unfolding after_batch total
  after_batch-Keeps capped on (some output) h =
      finish-Keeps setup sampler turn_id id quiet _ (ground arith)
  after_batch-Keeps true on none h = finish-Keeps setup sampler turn_id id quiet _ (ground arith)
  after_batch-Keeps false on none h = h

  after_sample-Owing :
      (capped : Bool) (on : Act SessionEvent) (rs : List Request)
      → Keeps on
      → Owing id (owed_requests id rs) (λ _. 0) (after_sample setup sampler turn_id capped on rs)
  unfolding after_sample total
  after_sample-Owing capped on [] h = finish-Keeps setup sampler turn_id id quiet _ (ground arith)
  after_sample-Owing capped on (r ∷ rs) h =
      Owing-bind id (owed_requests id (r ∷ rs)) (λ _. 0) (λ _. 0) (run_batch setup capped (r ∷ rs))
        (after_batch setup sampler turn_id capped on) (run_batch-Owing setup id capped (r ∷ rs))
        (λ output. after_batch-Keeps capped on output h)

  drive-Keeps : (left number : ℕ) → Keeps (drive setup sampler turn_id left number)
  unfolding drive total
  drive-Keeps zero number = finish-Keeps setup sampler turn_id id quiet _ (ground arith)
  drive-Keeps (suc left) number =
      Owing-bind id 0 (owed_requests id) (λ _. 0) (take_sample setup sampler turn_id number)
        (after_sample setup sampler turn_id (leb sampler.max_steps (suc number))
          (drive setup sampler turn_id left (suc number)))
        (take_sample-Owing setup sampler turn_id id quiet number)
        (λ rs.
          after_sample-Owing (leb sampler.max_steps (suc number))
            (drive setup sampler turn_id left (suc number)) rs (drive-Keeps left (suc number)))

  -- a turn that fails does not complete
  finish-failed :
      (f : TurnFailed) (s t : Engine) (c : TurnCompleted)
      → finish setup sampler turn_id (turn_failed f) s ≡ (ok (turn_completed c), t)
      → (true ≡ false)
  finish-failed f s t c p =
      let h : turn_failed f ≡ turn_completed c =
        (finish-inverse setup sampler turn_id (turn_failed f) (turn_completed c) s t p).0 in
      absurd (ground arith)

  or_failed-completed :
      (result : Outcome SessionEvent) (s t : Engine) (c : TurnCompleted)
      → or_failed setup sampler turn_id result s ≡ (ok (turn_completed c), t)
      → (result ≡ ok (turn_completed c)) × (s ≡ t)
  unfolding or_failed
  or_failed-completed (ok e) s t c p = (
    ap (λ (x : Outcome SessionEvent × Engine). x.0) p,
    ap (λ (x : Outcome SessionEvent × Engine). x.1) p,
  )
  or_failed-completed (raise provider_error) s t c p = absurd (
      let f : true ≡ false =
        finish-failed (record { turn_id = turn_id; error = sampler.error_text s }) s t c p in
      ground arith)
  or_failed-completed (raise e) s t c p = absurd (ground arith)

  -- the turn, from its first event
  started-Owes :
      (input : String) (s t : Engine) (c : TurnCompleted)
      → run_once setup sampler turn_id false input s ≡ (ok (turn_completed c), t)
      → Owes id 0 0 s t
  unfolding run_once drive_or_fail total
  started-Owes input s t c p =
      let opening =
        append setup.compacts (turn_started (record { turn_id = turn_id; input = input }) ∷ []) in
      let hooked = call_hooks setup sampler turn_id (λ hook. hook.before_turn) setup.hooks in
      let (_, first, q, o) =
        bind-inverse opening (λ _. hooked >>= λ _. drive_or_fail setup sampler turn_id) s t
          (turn_completed c) p in
      let (_, mid, l, r) =
        bind-inverse hooked (λ _. drive_or_fail setup sampler turn_id) first t (turn_completed c)
          o in
      let (x, y) =
        or_failed-completed (drive setup sampler turn_id sampler.max_steps 0 mid).0
          (drive setup sampler turn_id sampler.max_steps 0 mid).1 t c r in
      let a : Owes id 0 0 s first =
        (append-Keeps setup sampler turn_id id quiet
            (turn_started (record { turn_id = turn_id; input = input })) (ground arith)).after
          s tt first q in
      let k : Owes id 0 0 first mid =
        (call_hooks-Keeps setup sampler turn_id id quiet (λ hook. hook.before_turn)
            setup.hooks).after
          first tt mid l in
      let b : Owes id 0 0 mid t =
        (drive-Keeps sampler.max_steps 0).after mid (turn_completed c) t (λ i. (x i, y i)) in
      omega arith

  run_once-Owes :
      (ended : Bool) (input : String) (s t : Engine) (c : TurnCompleted)
      → run_once setup sampler turn_id ended input s ≡ (ok (turn_completed c), t)
      → Owes id 0 0 s t
  unfolding run_once
  run_once-Owes true input s t c p = absurd (ground arith)
  run_once-Owes false input s t c p = started-Owes input s t c p

  -- Of a turn that completes, each call that the model made has its completion in the journal,
  -- whatever the hooks, the permissions, people and the tools did, in whatever order the tools ran,
  -- and whether or not the journal was compacted meanwhile: the turn completes each id at least as
  -- often as it requests it. The engine is fresh, and compactions request no calls.
  pub run_completes :
      (input : String) (s t : Engine) (c : TurnCompleted)
      → s.log ≡ []
      → run setup sampler turn_id input s ≡ (ok (turn_completed c), t)
      → requests id t.log ≤ completions id t.log
  unfolding run total
  run_completes input s t c e p =
      let loaded : Engine = (load_ids setup sampler turn_id s).1 in
      let x : Owes id 0 0 loaded t = run_once-Owes (is_some s.terminal) input loaded t c p in
      let y : requests id s.log ≡ 0 = ap (requests id) e in
      let z : completions id s.log ≡ 0 = ap (completions id) e in omega arith

-- ===== src/Turn/Pairing.antt =====
-- A batch pays for all the calls of its sample.
use tantra.Prelude.{
  ℕ, ◌+◌, String, ◌≡◌, refl, ap, Bool, true, false, Option, none, some, List, [], ◌∷◌, arith, map,
}
use tantra.Prelude.Stateful.{◌>>=◌, pure, bind-inverse}
use tantra.Prelude.Outcome.{Outcome, ok, raise}
use tantra.Json.{Json}
use tantra.Events.{SessionEvent, ToolCallRequested, tool_call_started}
use tantra.Turn.{Act, Engine, append}
use tantra.Turn.Counts.{
  is_request, is_completion, total-map, completions-runs, owed, owed_option, owed_prepared,
  owed_requests,
}
use tantra.Turn.Owing.{
  Owes, Owing, Owing-still, Owing-bind, Owing-read, Owing-pure, Owing-append, Owing-frame,
  Owing-weaken,
}
use tantra.Turn.Paying.{complete-Owing, check_call-Owing}
use tantra.Turn.Parts.{Checked, valid, invalid, Request}
use tantra.Turn.Setup.{Setup, PreparedCall}
use tantra.Turn.Tools.{complete, check_call}
use tantra.Turn.Batch.{
  Found, submission, on_submission, preflight, prepend, run_all, run_batch, invocation, weave_all,
  transformed, raise_first,
}

module _ (setup : Setup) (id : String) where
  abbrev owed_found : Found setup → ℕ
  owed_found found = owed_prepared id found.0

  -- a completion, and then code that pays for the rest
  paid-Owing :
      (call : ToolCallRequested) (result : Json) (is_error : Bool) (n : ℕ) (m : Act (Found setup))
      → Owing id n owed_found m
      → Owing id
          (owed id call + n)
          owed_found
          (complete setup call.call_id result is_error >>= λ _. m)
  paid-Owing call result is_error n m h =
      Owing-bind id (owed id call + n) (λ _. 0 + n) owed_found
        (complete setup call.call_id result is_error) (λ _. m)
        (Owing-frame id n (owed id call) (λ _. 0) (complete setup call.call_id result is_error)
          (complete-Owing setup id call result is_error))
        (λ _. Owing-weaken id (0 + n) n owed_found owed_found m (omega arith) (λ a. omega arith) h)

  on_submission-Owing :
      (call : ToolCallRequested) (n : ℕ) (submitted : Option (Checked Json))
      (ordinary again ended : Act (Found setup))
      → Owing id (owed id call + n) owed_found ordinary
      → Owing id n owed_found again
      → Owing id n owed_found ended
      → Owing id
          (owed id call + n)
          owed_found
          (on_submission setup call submitted ordinary again ended)
  on_submission-Owing call n none ordinary again ended h k l = h
  on_submission-Owing call n (some (invalid e)) ordinary again ended h k l =
      paid-Owing call _ true n again k
  on_submission-Owing call n (some (valid output)) ordinary again ended h k l =
      paid-Owing call output false n (ended >>= λ found. pure (found.0, some output)) (
        Owing-bind id n owed_found owed_found ended (λ found. pure (found.0, some output)) l
          (λ found. Owing-pure id owed_found (found.0, some output)))

  prepend-Owing :
      (p : Option PreparedCall) (found : Found setup)
      → Owing id (owed_found found + owed_option id p) owed_found (prepend setup p found)
  prepend-Owing none found =
      Owing-weaken id (owed_found found + 0) (owed_found found) owed_found owed_found (pure found)
        (omega arith) (λ a. omega arith) (Owing-pure id owed_found found)
  prepend-Owing (some p) (ps, output) =
      Owing-weaken id (owed_prepared id ps + owed id p.call) (owed id p.call + owed_prepared id ps)
        owed_found owed_found (pure (p ∷ ps, output)) (omega arith) (λ a. omega arith)
        (Owing-pure id owed_found (p ∷ ps, output))

  -- The calls are checked in order; what they leave owed is prepared.
  ordinary-Owing :
      (capped : Bool) (call : ToolCallRequested) (n : ℕ) (again : Act (Found setup))
      → Owing id n owed_found again
      → Owing id
          (owed id call + n)
          owed_found
          (check_call setup capped call >>= λ p. again >>= prepend setup p)
  ordinary-Owing capped call n again h =
      Owing-bind id (owed id call + n) (λ p. owed_option id p + n) owed_found
        (check_call setup capped call) (λ p. again >>= prepend setup p)
        (Owing-frame id n (owed id call) (owed_option id) (check_call setup capped call)
          (check_call-Owing setup id capped call))
        (λ p.
          Owing-bind id (owed_option id p + n) (λ found. owed_found found + owed_option id p)
            owed_found again (prepend setup p)
            (Owing-weaken id (owed_option id p + n) (n + owed_option id p)
              (λ found. owed_found found + owed_option id p)
              (λ found. owed_found found + owed_option id p) again (omega arith) (λ a. omega arith)
              (Owing-frame id (owed_option id p) n owed_found again h))
            (prepend-Owing p))

  preflight-Owing :
      (capped stopped : Bool) (rs : List Request)
      → Owing id (owed_requests id rs) owed_found (preflight setup capped stopped rs)
  unfolding preflight
  preflight-Owing capped stopped [] = Owing-pure id owed_found ([], none)
  preflight-Owing capped stopped ((call, some e) ∷ rs) = preflight-Owing capped stopped rs
  preflight-Owing capped true ((call, none) ∷ rs) =
      paid-Owing call _ true (owed_requests id rs) (preflight setup capped true rs)
        (preflight-Owing capped true rs)
  preflight-Owing capped false ((call, none) ∷ rs) =
      on_submission-Owing call (owed_requests id rs) (submission setup call)
        (check_call setup capped call >>= λ p. preflight setup capped false rs >>= prepend setup p)
        (preflight setup capped false rs) (preflight setup capped true rs)
        (ordinary-Owing capped call (owed_requests id rs) (preflight setup capped false rs)
          (preflight-Owing capped false rs))
        (preflight-Owing capped false rs) (preflight-Owing capped true rs)

  raise_first-same :
      (results : List (Outcome Json)) (s : Engine) → (raise_first setup results s).1 ≡ s
  raise_first-same [] s = refl
  raise_first-same (raise e ∷ results) s = refl
  raise_first-same (ok a ∷ results) s = raise_first-same results s

  -- the runs, where no hook raises
  runs-Owing :
      (engine : Engine) (p : PreparedCall) (ps : List PreparedCall)
      → Owing id
          (owed_prepared id (p ∷ ps))
          (λ _. 0)
          (append setup.compacts
              (weave_all (setup.choices engine) (map (invocation setup engine) (p ∷ ps)))
            >>= λ _. raise_first setup (map (transformed setup engine) (p ∷ ps)))
  runs-Owing engine p ps =
      let due = owed_prepared id (p ∷ ps) in
      let runs : List SessionEvent =
        weave_all (setup.choices engine) (map (invocation setup engine) (p ∷ ps)) in
      let raising : Act (Unit {0}) = raise_first setup (map (transformed setup engine) (p ∷ ps)) in
      record {
        after = λ s a t h.
            let (_, mid, q, r) = bind-inverse (append setup.compacts runs) (λ _. raising) s t a h in
            let (x, y) = completions-runs setup id engine mid t (setup.choices engine) (p ∷ ps) r in
            let z : Owes id due 0 s mid =
              (Owing-append id setup.compacts runs due 0 (omega arith)).after s tt mid q in
            let w : Owes id 0 0 mid t =
              (Owing-still id 0 raising (λ e.
                  ap (λ (u : Engine). u.log)
                    (raise_first-same (map (transformed setup engine) (p ∷ ps)) e))).after
                mid a t r in
            omega arith;
      }

  run_all-Owing :
      (ps : List PreparedCall) → Owing id (owed_prepared id ps) (λ _. 0) (run_all setup ps)
  unfolding run_all
  run_all-Owing [] = Owing-pure id (λ _. 0) tt
  run_all-Owing (p ∷ ps) =
      let due = owed_prepared id (p ∷ ps) in
      let starts : PreparedCall → SessionEvent =
        λ q. tool_call_started (record { call_id = q.call.call_id }) in
      let runs : Engine → List SessionEvent =
        λ engine. weave_all (setup.choices engine) (map (invocation setup engine) (p ∷ ps)) in
      let raising : Engine → Act (Unit {0}) =
        λ engine. raise_first setup (map (transformed setup engine) (p ∷ ps)) in
      Owing-bind id due (λ _. due) (λ _. 0) (append setup.compacts (map starts (p ∷ ps)))
        (λ _. λ engine. (append setup.compacts (runs engine) >>= λ _. raising engine) engine)
        (Owing-append id setup.compacts (map starts (p ∷ ps)) due due (
          let x = total-map (is_request id) starts (λ q. refl) (p ∷ ps) in
          let y = total-map (is_completion id) starts (λ q. refl) (p ∷ ps) in omega arith))
        (λ _.
          Owing-read id due (λ _. 0)
            (λ engine. append setup.compacts (runs engine) >>= λ _. raising engine)
            (λ engine. runs-Owing engine p ps))

  pub run_batch-Owing :
      (capped : Bool) (rs : List Request)
      → Owing id (owed_requests id rs) (λ _. 0) (run_batch setup capped rs)
  unfolding run_batch
  run_batch-Owing capped rs =
      Owing-bind id (owed_requests id rs) owed_found (λ _. 0) (preflight setup capped false rs)
        (λ found. run_all setup found.0 >>= λ _. pure found.1) (preflight-Owing capped false rs)
        (λ found.
          Owing-bind id (owed_found found) (λ _. 0) (λ _. 0) (run_all setup found.0)
            (λ _. pure found.1) (run_all-Owing found.0) (λ _. Owing-pure id (λ _. 0) found.1))

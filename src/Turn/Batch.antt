-- ===== src/Turn/Batch.antt =====
-- `_preflight`, `_invoke` and `_batch`: the calls of a sample are checked one after another, and those
-- that pass run at the same time.
use Prim.Native.String.{◌++◌ as append_text}
use tantra.Prelude.{
  Bool, true, false, Option, none, some, List, [], ◌∷◌, ◌++◌, ◌==◌, map, if◌then◌else◌,
}
use tantra.Prelude.Stateful.{◌>>=◌, pure, fail}
use tantra.Prelude.Outcome.{Outcome, ok, raise}
use tantra.Json.{Json, text}
use tantra.Events.{
  SessionEvent, ToolCallRequested, tool_call_started, tool_progress, tool_call_completed,
}
use tantra.Turn.{Engine, Act, append}
use tantra.Turn.Parts.{Checked, valid, invalid, Request}
use tantra.Turn.Setup.{Hook, PreparedCall, Setup}
use tantra.Turn.Tools.{submit_output, complete, check_call}

-- Two runs at the same time: the first writes next where the choice is true.
abbrev pub weave : List Bool → List SessionEvent → List SessionEvent → List SessionEvent
weave [] xs ys = xs ++ ys
weave (_ ∷ cs) [] ys = ys
weave (_ ∷ cs) (x ∷ xs) [] = x ∷ xs
weave (true ∷ cs) (x ∷ xs) (y ∷ ys) = x ∷ weave cs xs (y ∷ ys)
weave (false ∷ cs) (x ∷ xs) (y ∷ ys) = y ∷ weave cs (x ∷ xs) ys

abbrev pub weave_all : List (List Bool) → List (List SessionEvent) → List SessionEvent
weave_all cs [] = []
weave_all [] (run ∷ runs) = run ++ weave_all [] runs
weave_all (c ∷ cs) (run ∷ runs) = weave c run (weave_all cs runs)

module _ (setup : Setup) where
  -- the output that a call submits
  abbrev pub submission : ToolCallRequested → Option (Checked Json)
  submission call = elim setup.output_schema [
    | none ↦ none
    | some schema ↦ if call.name == submit_output then some (schema call.args) else none
  ]

  abbrev pub prepend :
      Option PreparedCall → List PreparedCall × Option Json → Act (List PreparedCall × Option Json)
  prepend none found = pure found
  prepend (some p) (ps, output) = pure (p ∷ ps, output)

  abbrev pub Found : Type 0
  Found = List PreparedCall × Option Json

  -- A call that submits an output ends the checks, unless the output is invalid.
  abbrev pub on_submission :
      ToolCallRequested → Option (Checked Json) → Act Found → Act Found → Act Found → Act Found
  on_submission call none ordinary again ended = ordinary
  on_submission call (some (invalid e)) ordinary again ended =
      complete setup call.call_id (text (append_text "invalid output: " e)) true >>= λ _. again
  on_submission call (some (valid output)) ordinary again ended =
      complete setup call.call_id output false >>= λ _.
      ended >>= λ found. pure (found.0, some output)

  -- `stopped` when an output was submitted
  unfoldable pub preflight : Bool → Bool → List Request → Act Found
  unfolding check_call
  preflight capped stopped [] = pure ([], none)
  preflight capped stopped ((call, some _) ∷ rs) = preflight capped stopped rs
  preflight capped true ((call, none) ∷ rs) =
      complete setup call.call_id (text "not executed: turn completed") true >>= λ _.
      preflight capped true rs
  preflight capped false ((call, none) ∷ rs) =
      let again = preflight capped false rs in
      let ended = preflight capped true rs in
      on_submission call (submission call)
        (check_call setup capped call >>= λ p. again >>= prepend p) again ended

  abbrev pub transform : Engine → ToolCallRequested → Bool → List Hook → Json → Outcome Json
  transform engine call is_error [] result = ok result
  transform engine call is_error (hook ∷ hooks) result =
      elim (hook.after_tool engine call result is_error) [
        | raise e ↦ raise e
        | ok none ↦ transform engine call is_error hooks result
        | ok (some other) ↦ transform engine call is_error hooks other
      ]

  -- what the hooks make of a run's result
  abbrev pub transformed : Engine → PreparedCall → Outcome Json
  transformed engine p =
      let ran = setup.run_tool engine p in
      transform engine p.call ran.is_error setup.hooks ran.result

  -- a run whose hook raised has no completion
  abbrev pub end_of_run : ToolCallRequested → Bool → Outcome Json → List SessionEvent
  end_of_run call is_error (raise e) = []
  end_of_run call is_error (ok result) =
      tool_call_completed (record { call_id = call.call_id; result = result; is_error = is_error })
      ∷ []

  -- the first exception of the runs, which all end before
  abbrev pub raise_first : List (Outcome Json) → Act (Unit {0})
  raise_first [] = pure tt
  raise_first (raise e ∷ results) = fail e
  raise_first (ok _ ∷ results) = raise_first results

  -- `_invoke`: what a run writes
  unfoldable pub invocation : Engine → PreparedCall → List SessionEvent
  invocation engine p =
      let ran = setup.run_tool engine p in
      map (λ message. tool_progress (record { call_id = p.call.call_id; message = message }))
        ran.messages
      ++ end_of_run p.call ran.is_error (transformed engine p)

  unfoldable pub run_all : List PreparedCall → Act (Unit {0})
  unfolding invocation
  run_all [] = pure tt
  run_all (p ∷ ps) =
      append setup.compacts (
        map (λ (q : PreparedCall). tool_call_started (record { call_id = q.call.call_id }))
          (p ∷ ps))
      >>= λ _. λ engine.
        (append setup.compacts (weave_all (setup.choices engine) (map (invocation engine) (p ∷ ps)))
            >>= λ _. raise_first (map (transformed engine) (p ∷ ps)))
          engine

  -- `_batch`: the output that was submitted
  unfoldable pub run_batch : Bool → List Request → Act (Option Json)
  unfolding preflight run_all
  run_batch capped rs = preflight capped false rs >>= λ found. run_all found.0 >>= λ _. pure found.1

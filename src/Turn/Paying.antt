-- ===== src/Turn/Paying.antt =====
-- The checks and the runs of a sample's calls pay for each of them.
use tantra.Prelude.{
  ℕ, String, ◌≡◌, refl, Bool, true, false, ◌&&◌, Option, none, some, [], ◌∷◌, arith, map,
}
use tantra.Prelude.Dict
use tantra.Prelude.Dict.{Dict}
use tantra.Prelude.Outcome.{Outcome, ok, raise, tantra_error}
use tantra.Prelude.Stateful.{pure}
use tantra.Json.{Json, text}
use tantra.Events.{
  SessionEvent, ToolCallRequested, AskRaised, AskRequest, InputQueued, ask_raised, ask_answered,
  input_queued,
}
use tantra.Permissions.{Permission}
use tantra.Turn.{Engine, append}
use tantra.Turn.Counts.{
  is_request, is_completion, total, total-append, total-map, completions-completion, owed,
  owed_option,
}
use tantra.Turn.Owing.{Owing, Owing-bind, Owing-read, Owing-pure, Owing-fail, Owing-append}
use tantra.Turn.Parts.{Checked, valid, invalid, completion}
use tantra.Turn.Setup.{Setup, Tool, Answered}
use tantra.Turn.Tools.{
  Judged, judge, complete, refuse, when_checked, take_answer, put_ask, ask_if, ask, answered_events,
  approval_for, when_answered, ask_person, approve, is_allowed, check_judged, when_judged,
  check_tool, check_call, permission_for, escalate,
}

module _ (setup : Setup) (id : String) where
  pub complete-Owing :
      (call : ToolCallRequested) (result : Json) (is_error : Bool)
      → Owing id (owed id call) (λ _. 0) (complete setup call.call_id result is_error)
  complete-Owing call result is_error =
      let (c, r) = completions-completion id call.call_id result is_error in
      Owing-append id setup.compacts (completion call.call_id result is_error) (owed id call) 0
        (omega arith)

  refuse-Owing :
      (call : ToolCallRequested) (why : String)
      → Owing id (owed id call) (owed_option id) (refuse setup call why)
  refuse-Owing call why =
      Owing-bind id (owed id call) (λ _. 0) (owed_option id)
        (complete setup call.call_id (text why) true) (λ _. pure none)
        (complete-Owing call (text why) true) (λ _. Owing-pure id (owed_option id) none)

  check_args-Owing :
      (call effective : ToolCallRequested) (checked : Checked (Dict Json))
      → Owing id (owed id call) (owed_option id) (when_checked setup call effective checked)
  check_args-Owing call effective (invalid e) = refuse-Owing call e
  check_args-Owing call effective (valid kwargs) =
      Owing-pure id (owed_option id)
        (some (record { call = call; effective = effective; kwargs = kwargs }))

  answered_nothing :
      (f : SessionEvent → ℕ) (given : Answered)
      → ((q : InputQueued) → f (input_queued q) ≡ 0)
      → f (ask_answered given.answer) ≡ 0
      → total f (answered_events setup given) ≡ 0
  unfolding total
  answered_nothing f given h p =
      let x =
        total-append f (map input_queued given.before)
          (ask_answered given.answer ∷ map input_queued given.after) in
      let y = total-map f input_queued h given.before in
      let z = total-map f input_queued h given.after in omega arith

  take_answer-Owing : (n : ℕ) (given : Answered) → Owing id n (λ _. n) (take_answer setup given)
  take_answer-Owing n given =
      Owing-bind id n (λ _. n) (λ _. n) (append setup.compacts (answered_events setup given))
        (λ _. pure given.answer.response)
        (Owing-append id setup.compacts (answered_events setup given) n n (
          let x = answered_nothing (is_request id) given (λ q. refl) refl in
          let y = answered_nothing (is_completion id) given (λ q. refl) refl in omega arith))
        (λ _. Owing-pure id (λ _. n) given.answer.response)

  put_ask-Owing : (n : ℕ) (raised : AskRaised) → Owing id n (λ _. n) (put_ask setup raised)
  unfolding total
  put_ask-Owing n raised =
      Owing-bind id n (λ _. n) (λ _. n) (append setup.compacts (ask_raised raised ∷ []))
        (λ _. λ engine. take_answer setup (setup.human engine raised) engine)
        (Owing-append id setup.compacts (ask_raised raised ∷ []) n n (ground arith))
        (λ _.
          Owing-read id n (λ _. n) (λ engine. take_answer setup (setup.human engine raised))
            (λ engine. take_answer-Owing n (setup.human engine raised)))

  ask_if-Owing :
      (n : ℕ) (can : Bool) (call_id : String) (request : AskRequest)
      → Owing id n (λ _. n) (ask_if setup can call_id request)
  ask_if-Owing n false call_id request = Owing-fail id n (λ _. n) tantra_error
  ask_if-Owing n true call_id request =
      let raised : Engine → AskRaised = λ engine. record {
        ask_id = setup.uuid engine;
        call_id = some call_id;
        request = request;
      } in
      Owing-read id n (λ _. n) (λ engine. put_ask setup (raised engine))
        (λ engine. put_ask-Owing n (raised engine))

  when_answered-Owing :
      (tool : Tool) (call effective : ToolCallRequested) (accepted : Bool)
      → Owing id (owed id call) (owed_option id) (when_answered setup tool call effective accepted)
  when_answered-Owing tool call effective true =
      check_args-Owing call effective (tool.validate effective.args)
  when_answered-Owing tool call effective false = refuse-Owing call "denied by user"

  ask_person-Owing :
      (can : Bool) (tool : Tool) (call : ToolCallRequested) (judged : Judged)
      → Owing id (owed id call) (owed_option id) (ask_person setup can tool call judged)
  unfolding ask_person ask
  ask_person-Owing false tool call judged = refuse-Owing call _
  ask_person-Owing true tool call judged =
      Owing-bind id (owed id call) (λ _. owed id call) (owed_option id)
        (ask_if setup (setup.allow_asks && setup.can_ask) call.call_id
          (approval_for setup call judged))
        (λ response. when_answered setup tool call judged.effective (is_allowed response))
        (ask_if-Owing (owed id call) (setup.allow_asks && setup.can_ask) call.call_id
          (approval_for setup call judged))
        (λ response. when_answered-Owing tool call judged.effective (is_allowed response))

  approve-Owing :
      (tool : Tool) (call : ToolCallRequested) (judged : Judged) (verdict : Permission)
      → Owing id (owed id call) (owed_option id) (approve setup tool call judged verdict)
  unfolding approve
  approve-Owing tool call judged Permission.deny = refuse-Owing call _
  approve-Owing tool call judged Permission.allow =
      check_args-Owing call judged.effective (tool.validate judged.effective.args)
  approve-Owing tool call judged Permission.ask = ask_person-Owing setup.allow_asks tool call judged

  check_judged-Owing :
      (tool : Tool) (call : ToolCallRequested) (judged : Judged) (denied : Option String)
      → Owing id (owed id call) (owed_option id) (check_judged setup tool call judged denied)
  unfolding check_judged
  check_judged-Owing tool call judged (some reason) = refuse-Owing call _
  check_judged-Owing tool call judged none =
      approve-Owing tool call judged
        (escalate setup judged.escalated (permission_for setup call.name tool.permission))

  when_judged-Owing :
      (tool : Tool) (call : ToolCallRequested) (judged : Outcome Judged)
      → Owing id (owed id call) (owed_option id) (when_judged setup tool call judged)
  unfolding when_judged
  when_judged-Owing tool call (raise e) = Owing-fail id (owed id call) (owed_option id) e
  when_judged-Owing tool call (ok judged) = check_judged-Owing tool call judged judged.denied

  check_tool-Owing :
      (call : ToolCallRequested) (tool : Option Tool)
      → Owing id (owed id call) (owed_option id) (check_tool setup call tool)
  unfolding check_tool
  check_tool-Owing call none = refuse-Owing call _
  check_tool-Owing call (some tool) =
      Owing-read id (owed id call) (owed_option id)
        (λ engine. when_judged setup tool call (judge setup engine setup.hooks none call))
        (λ engine. when_judged-Owing tool call (judge setup engine setup.hooks none call))

  pub check_call-Owing :
      (capped : Bool) (call : ToolCallRequested)
      → Owing id (owed id call) (owed_option id) (check_call setup capped call)
  unfolding check_call
  check_call-Owing true call = refuse-Owing call _
  check_call-Owing false call = check_tool-Owing call (Dict.get setup.tools call.name)

-- ===== src/Turn/Tools.antt =====
-- The checks of `_preflight`: hooks, permissions, people and the arguments of a call.
use Prim.Native.String.{◌++◌ as append_text}
use tantra.Prelude.{String, Bool, true, false, ◌&&◌, Option, none, some, List, [], ◌∷◌, ◌++◌, map}
use tantra.Prelude.Outcome.{Outcome, ok, raise, tantra_error}
use tantra.Prelude.Stateful.{◌>>=◌, pure, fail}
use tantra.Prelude.Dict
use tantra.Prelude.Dict.{Dict}
use tantra.Json.{Json, text}
use tantra.Events.{
  SessionEvent, ToolCallRequested, AskRaised, AskRequest, AskResponse, approval, allow, ask_raised,
  ask_answered, input_queued,
}
use tantra.Permissions.{Permission, decide, stricter}
use tantra.Turn.{Engine, Act, append}
use tantra.Turn.Parts.{Checked, valid, invalid, completion}
use tantra.Turn.Setup.{
  Tool, passes, denial, escalation, replaced, Hook, Answered, PreparedCall, Setup,
}

-- what the hooks say to a call: the denial, the first escalation, and the call as it is by then
pub record Judged : Type 0 where
  pub denied : Option String
  pub escalated : Option String
  pub effective : ToolCallRequested

abbrev pub submit_output : String
submit_output = "submit_output"

abbrev pub is_allowed : AskResponse → Bool
is_allowed (allow accepted) = accepted
is_allowed _ = false

module _ (setup : Setup) where
  abbrev pub strictest_in_chain :
      String → Permission → List (List (String × Permission)) → Permission
  strictest_in_chain name verdict [] = verdict
  strictest_in_chain name verdict (rules ∷ chain) =
      strictest_in_chain name
        (stricter verdict (decide setup.fnmatch name rules none setup.default_permission)) chain

  -- `_verdict`
  unfoldable pub permission_for : String → Option Permission → Permission
  permission_for name tool_permission =
      strictest_in_chain name
        (decide setup.fnmatch name setup.permissions tool_permission setup.default_permission)
        setup.permission_chain

  abbrev pub answered_events : Answered → List SessionEvent
  answered_events a =
      map input_queued a.before ++ (ask_answered a.answer ∷ map input_queued a.after)

  -- what the runtime wrote meanwhile, which is read back, and the response
  abbrev pub take_answer : Answered → Act AskResponse
  take_answer given =
      append setup.compacts (answered_events given) >>= λ _. pure given.answer.response

  abbrev pub put_ask : AskRaised → Act AskResponse
  put_ask raised = append setup.compacts (ask_raised raised ∷ []) >>= λ _.
      λ engine. take_answer (setup.human engine raised) engine

  abbrev pub ask_if : Bool → String → AskRequest → Act AskResponse
  ask_if false call_id request = fail tantra_error
  ask_if true call_id request = λ engine.
      put_ask (record { ask_id = setup.uuid engine; call_id = some call_id; request = request })
        engine

  -- `_ask`
  unfoldable pub ask : String → AskRequest → Act AskResponse
  ask = ask_if (setup.allow_asks && setup.can_ask)

  -- `_complete`
  abbrev pub complete : String → Json → Bool → Act (Unit {0})
  complete call_id result is_error = append setup.compacts (completion call_id result is_error)

  abbrev pub first_of : Option String → String → Option String
  first_of none reason = some reason
  first_of (some earlier) _ = some earlier

  abbrev pub judge : Engine → List Hook → Option String → ToolCallRequested → Outcome Judged
  judge engine [] escalated effective =
      ok (record { denied = none; escalated = escalated; effective = effective })
  judge engine (hook ∷ hooks) escalated effective = elim (hook.before_tool engine effective) [
    | raise e ↦ raise e
    | ok passes ↦ judge engine hooks escalated effective
    | ok (denial reason) ↦
        ok (record { denied = some reason; escalated = escalated; effective = effective })
    | ok (escalation reason) ↦ judge engine hooks (first_of escalated reason) effective
    | ok (replaced other) ↦ judge engine hooks escalated other
  ]

  -- a call that is not run has its completion; one that may run is prepared
  abbrev pub refuse : ToolCallRequested → String → Act (Option PreparedCall)
  refuse call why = complete call.call_id (text why) true >>= λ _. pure none

  abbrev pub when_checked :
      ToolCallRequested → ToolCallRequested → Checked (Dict Json) → Act (Option PreparedCall)
  when_checked call effective (invalid e) = refuse call e
  when_checked call effective (valid kwargs) =
      pure (some (record { call = call; effective = effective; kwargs = kwargs }))

  -- the check of the arguments, after which a call is ready
  abbrev pub check_args : Tool → ToolCallRequested → ToolCallRequested → Act (Option PreparedCall)
  check_args tool call effective = when_checked call effective (tool.validate effective.args)

  abbrev pub approval_for : ToolCallRequested → Judged → AskRequest
  approval_for call judged =
      approval (append_text "Run " (append_text call.name "?"))
        (elim judged.escalated [
          | none ↦ setup.dumps judged.effective.args
          | some reason ↦
              append_text reason (append_text "\n\n" (setup.dumps judged.effective.args))
        ])
        (("permission", text call.name) ∷ ("arguments", setup.reload judged.effective.args) ∷ [])

  abbrev pub when_answered :
      Tool → ToolCallRequested → ToolCallRequested → Bool → Act (Option PreparedCall)
  when_answered tool call effective true = check_args tool call effective
  when_answered tool call effective false = refuse call "denied by user"

  unfoldable pub ask_person : Bool → Tool → ToolCallRequested → Judged → Act (Option PreparedCall)
  unfolding ask
  ask_person false tool call judged =
      refuse call "child agents cannot ask humans; use send() to message the parent"
  ask_person true tool call judged = ask call.call_id (approval_for call judged) >>= λ response.
      when_answered tool call judged.effective (is_allowed response)

  -- after the hooks and the permissions
  unfoldable pub approve :
      Tool → ToolCallRequested → Judged → Permission → Act (Option PreparedCall)
  unfolding ask_person
  approve tool call judged Permission.deny =
      refuse call (append_text "denied by permissions: " call.name)
  approve tool call judged Permission.allow = check_args tool call judged.effective
  approve tool call judged Permission.ask = ask_person setup.allow_asks tool call judged

  abbrev pub escalate : Option String → Permission → Permission
  escalate none verdict = verdict
  escalate (some _) verdict = stricter verdict Permission.ask

  unfoldable pub check_judged :
      Tool → ToolCallRequested → Judged → Option String → Act (Option PreparedCall)
  unfolding permission_for approve
  check_judged tool call judged (some reason) = refuse call (append_text "denied by hook: " reason)
  check_judged tool call judged none =
      approve tool call judged
        (escalate judged.escalated (permission_for call.name tool.permission))

  -- a hook that raises ends the turn
  unfoldable pub when_judged : Tool → ToolCallRequested → Outcome Judged → Act (Option PreparedCall)
  unfolding check_judged
  when_judged tool call (raise e) = fail e
  when_judged tool call (ok judged) = check_judged tool call judged judged.denied

  unfoldable pub check_tool : ToolCallRequested → Option Tool → Act (Option PreparedCall)
  unfolding when_judged
  -- `!r` is `repr`
  check_tool call none = refuse call (append_text "unknown tool " (setup.repr call.name))
  check_tool call (some tool) =
      λ engine. when_judged tool call (judge engine setup.hooks none call) engine

  unfoldable pub check_call : Bool → ToolCallRequested → Act (Option PreparedCall)
  unfolding check_tool
  check_call true call = refuse call "not executed: max steps reached"
  check_call false call = check_tool call (Dict.get setup.tools call.name)

-- ===== src/Context/Pairing.antt =====
-- In the messages of a request each tool call has its result and each result its call.
mod Finish
mod Entries
mod Steps
use tantra.Prelude.{
  String, ◌≡◌, refl, sym, ap, ◌∙◌, Bool, true, false, ◌&&◌, ◌||◌, inl, inr, Option, none, some,
  List, [], ◌∷◌, ◌++◌, append-nil, arith, filter, filter_map, has, has-append, is_some, map, ◌==◌,
  eq_iff, eq_refl, if◌then◌else◌, Bool-cases, Option-cases,
}
use tantra.Prelude.Dict
use tantra.Prelude.Dict.{Dict, get-put, get-put_self}
use tantra.Json.{Json}
use tantra.Events.{
  SessionEvent, turn_started, text_part, cancellation_requested, reasoning_part,
  tool_call_requested, tool_call_completed,
}
use tantra.Messages.{AssistantMessage, ToolCall, ToolResultMessage, Message, user, assistant, tool}
use tantra.Context.{
  Slot, plain, sample, result, Assembly, blank, sample_message, change_sample, add_text, add_call,
  add_reasoning, call_of, open_result, assemble_event, assemble_events, opening, assemble_messages,
  emit,
}
pub use Finish.{calls_of, results_of}
use Finish.{
  call_ids, sample_calls, slot_calls, slot_results, slot_samples, has-calls_of, has-results_of,
}
use Steps.*

module _ (dumps : Json → String) where
  Between-assemble_event :
      (st : Assembly) (e : SessionEvent)
      → Between [] [] st
      → Between [] [] (assemble_event dumps st e)
  unfolding assemble_event
  Between-assemble_event st (turn_started e) b = Between-plain _ st b
  Between-assemble_event st (text_part e) b =
      Between-change_sample [] e.sample_id (add_text e.text) st (λ m. sym (append-nil _)) b
  Between-assemble_event st (cancellation_requested e) b = Between-plain _ st b
  Between-assemble_event st (reasoning_part e) b =
      Between-change_sample [] e.sample_id
        (add_reasoning (record { text = e.text; signature = e.signature })) st
        (λ m. sym (append-nil _)) b
  Between-assemble_event st (tool_call_requested e) b =
      let call : ToolCall = call_of dumps e in
      Between-open_result e.call_id _ (
        Between-change_sample (e.call_id ∷ []) e.sample_id (add_call call) _
          (λ m. call_ids-append m.tool_calls (call ∷ [])) (Between-request e.call_id st b))
  Between-assemble_event st (tool_call_completed e) b =
      elim (Bool-cases (has st.requested e.call_id)) [
        | inl h ↦ rw (h, assemble_event) (Between-complete _ st h b)
        | inr h ↦ rw (h, assemble_event) b
      ]
  Between-assemble_event st _ b = b

  Between-assemble_events :
      (es : List SessionEvent) (st : Assembly)
      → Between [] [] st
      → Between [] [] (assemble_events dumps st es)
  unfolding assemble_events
  Between-assemble_events [] st b = b
  Between-assemble_events (e ∷ es) st b =
      Between-assemble_events es _ (Between-assemble_event st e b)

  Between-opening : (summary : String) → Between [] [] (opening summary)
  unfolding Dict.get
  Between-opening summary = record {
    called = λ c. ground arith;
    noted = λ c. ground arith;
    opened = λ c. ground arith;
    entered = λ c. ground arith;
    named = λ c r p. cc;
    done = λ c p. cc;
  }

  -- Whatever the journal and the summary, an id is called in the assembled messages exactly if a
  -- tool message answers it.
  pub has-calls_of_assemble :
      (summary : String) (events : List SessionEvent) (c : String)
      → has (calls_of (assemble_messages dumps summary events)) c
        ≡ has (results_of (assemble_messages dumps summary events)) c
  unfolding assemble_messages
  has-calls_of_assemble summary events c =
      let st : Assembly = assemble_events dumps (opening summary) events in
      let b : Between [] [] st = Between-assemble_events events _ (Between-opening summary) in
      ground (
        arith,
        has-calls_of st st.slots c,
        has-results_of st st.slots c b.named (λ id h. b.opened id ∙ h),
        b.called c,
        b.noted c,
      )

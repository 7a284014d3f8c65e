-- ===== src/Context.antt =====
-- context.py: how a journal becomes the messages of a request. `dumps` is `json.dumps`.
mod Tests
pub mod Window
pub mod Replay
pub mod Pairing
use Prim.Native.String.{◌++◌ as append_text}
use tantra.Prelude.{
  ℕ, zero, suc, ◌-◌, String, Bool, true, false, ◌||◌, Option, none, some, List, [], ◌∷◌, ◌++◌, ◌==◌,
  drop, filter, filter_map, has, length, min, map, not, is_some, or_text, if◌then◌else◌,
}
use tantra.Prelude.Dict
use tantra.Prelude.Dict.{Dict}
use tantra.Prelude.Outcome.{Outcome, ok, raise, tantra_error}
use tantra.Json.{Json, Fields, nil, field, object, text}
use tantra.Events.{
  SessionEvent, CompactionApplied, TextPart, ReasoningPart, ToolCallRequested, ToolCallCompleted,
  turn_started, text_part, reasoning_part, tool_call_requested, tool_call_completed,
  compaction_applied, cancellation_requested,
}
use tantra.Messages.{
  AssistantMessage, ReasoningBlock, ToolCall, ToolResultMessage, Message, user, assistant, tool,
  SystemBlock, ToolSchema, SampleRequest,
}

abbrev pub as_applied : SessionEvent → Option CompactionApplied
as_applied (compaction_applied e) = some e
as_applied _ = none

abbrev pub starts_turn : String → SessionEvent → Bool
starts_turn id (turn_started t) = t.turn_id == id
starts_turn id _ = false

-- the first loop: the last compaction, with its index
unfoldable pub last_applied : List SessionEvent → Option (ℕ × CompactionApplied)
last_applied [] = none
last_applied (e ∷ es) = elim (last_applied es) [
  | some (i, a) ↦ some (suc i, a)
  | none ↦ elim (as_applied e) [ none ↦ none | some a ↦ some (0, a) ]
]

-- the second loop: the index of the first start of a turn
unfoldable pub find_turn : String → List SessionEvent → Option ℕ
find_turn id [] = none
find_turn id (e ∷ es) =
    let rest = find_turn id es in
    if starts_turn id e then some 0 else elim rest [ none ↦ none | some i ↦ some (suc i) ]

abbrev pub floor_of : ℕ → CompactionApplied → List SessionEvent → ℕ
floor_of latest applied events = elim applied.floor_turn_id [
  | none ↦ suc latest
  | some id ↦ elim (find_turn id events) [ none ↦ suc latest | some i ↦ i ]
]

unfoldable pub compaction_window : List SessionEvent → String × List SessionEvent
compaction_window events = elim (last_applied events) [
  | none ↦ ("", events)
  | some (latest, applied) ↦ (applied.summary, drop (floor_of latest applied events) events)
]

unfoldable pub compacted_history : List SessionEvent → List SessionEvent
compacted_history events =
    let window = (compaction_window events).1 in
    elim (last_applied events) [
      | none ↦ window
      | some (latest, _) ↦ drop (min latest (length events - length window)) events
    ]

abbrev pub cancellation_context : String
cancellation_context = "[runtime] The user cancelled the live root and descendant work."

abbrev pub root_cancellation_context : String
root_cancellation_context =
    "[runtime] The user cancelled the live root turn. Descendant agents keep running."

-- An entry of `messages`. The objects of `samples` and `results` are also in `messages`, and are
-- changed after they were put there: an entry names its object.
pub data Slot : Type 0 where
  plain : String → Slot
  sample : String → Slot
  result : String → Slot

pub record Assembly : Type 0 where
  pub slots : List Slot
  pub samples : Dict AssistantMessage
  pub results : Dict ToolResultMessage
  pub requested : List String
  pub completed : List String

abbrev pub blank : AssistantMessage
blank = record { text = none; reasoning = []; tool_calls = [] }

-- `sample_message`
unfoldable pub sample_message : String → Assembly → Assembly
sample_message id st = elim (Dict.get st.samples id) [
  | some _ ↦ st
  | none ↦ record st { samples = Dict.put st.samples id blank; slots = st.slots ++ sample id ∷ [] }
]

-- `sample_message(id)` and a change of what it returns
unfoldable pub change_sample : String → (AssistantMessage → AssistantMessage) → Assembly → Assembly
change_sample id f st =
    let st' = sample_message id st in
    record st' { samples = Dict.put st'.samples id (f (Dict.get_or st'.samples id blank)) }

abbrev pub add_text : String → AssistantMessage → AssistantMessage
add_text more m = record m {
  text = some (append_text (elim m.text [ none ↦ "" | some t ↦ t ]) more);
}

abbrev pub add_reasoning : ReasoningBlock → AssistantMessage → AssistantMessage
add_reasoning block m = record m { reasoning = m.reasoning ++ block ∷ [] }

abbrev pub add_call : ToolCall → AssistantMessage → AssistantMessage
add_call call m = record m { tool_calls = m.tool_calls ++ call ∷ [] }

abbrev pub fields_of : Dict Json → Fields
fields_of [] = nil
fields_of ((k, v) ∷ d) = field k v (fields_of d)

-- `if event.call_id not in results: …`
unfoldable pub open_result : String → Assembly → Assembly
open_result id st = elim (Dict.get st.results id) [
  | some _ ↦ st
  | none ↦ record st {
    results = Dict.put st.results id (record { call_id = id; content = ""; is_error = false });
    slots = st.slots ++ result id ∷ [];
  }
]

-- `message.tool_calls`, without the calls that have no result
abbrev pub answered : List String → AssistantMessage → AssistantMessage
answered completed m = record m { tool_calls = filter (λ call. has completed call.id) m.tool_calls }

-- `message.text or message.reasoning or message.tool_calls`
abbrev pub says_something : AssistantMessage → Bool
says_something m =
    elim m.text [ none ↦ false | some t ↦ not (t == "") ]
    || elim m.reasoning [ [] ↦ false | _ ↦ true ]
    || elim m.tool_calls [ [] ↦ false | _ ↦ true ]

-- the last two loops, for one entry
unfoldable pub emit : Assembly → Slot → Option Message
emit st (plain content) = some (user content)
emit st (sample id) = elim (Dict.get st.samples id) [
  | none ↦ none
  | some m ↦
      if says_something (answered st.completed m)
      then some (assistant (answered st.completed m))
      else none
]
emit st (result id) = elim (Dict.get st.results id) [
  | none ↦ none
  | some r ↦ if has st.completed r.call_id then some (tool r) else none
]

abbrev pub opening : String → Assembly
opening summary = record {
  slots = if summary == "" then [] else plain summary ∷ [];
  samples = [];
  results = [];
  requested = [];
  completed = [];
}

module _ (dumps : Json → String) where
  abbrev pub as_content : Json → String
  as_content (text s) = s
  as_content v = dumps v

  abbrev pub call_of : ToolCallRequested → ToolCall
  call_of e = record { id = e.call_id; name = e.name; args = dumps (object (fields_of e.args)) }

  -- the body of the loop over the events
  unfoldable pub assemble_event : Assembly → SessionEvent → Assembly
  unfolding change_sample sample_message open_result
  assemble_event st (turn_started e) = record st { slots = st.slots ++ plain e.input ∷ [] }
  assemble_event st (text_part e) = change_sample e.sample_id (add_text e.text) st
  assemble_event st (cancellation_requested e) = record st {
    slots =
        st.slots
        ++ plain (if e.descendants then cancellation_context else root_cancellation_context) ∷ [];
  }
  assemble_event st (reasoning_part e) =
      change_sample e.sample_id (add_reasoning (record { text = e.text; signature = e.signature }))
        st
  assemble_event st (tool_call_requested e) = open_result e.call_id (
      change_sample e.sample_id (add_call (call_of e))
        (record st { requested = e.call_id ∷ st.requested }))
  assemble_event st (tool_call_completed e) =
      if has st.requested e.call_id
      then record st {
        results =
            Dict.put st.results e.call_id (record {
              call_id = e.call_id;
              content = as_content e.result;
              is_error = e.is_error;
            });
        completed = e.call_id ∷ st.completed;
      }
      else st
  assemble_event st _ = st

  unfoldable pub assemble_events : Assembly → List SessionEvent → Assembly
  assemble_events st [] = st
  assemble_events st (e ∷ es) = assemble_events (assemble_event st e) es

  unfoldable pub assemble_messages : String → List SessionEvent → List Message
  unfolding emit
  assemble_messages summary events =
      let st = assemble_events (opening summary) events in filter_map (emit st) st.slots

  unfoldable pub build_messages : List SessionEvent → List Message
  unfolding compaction_window
  build_messages events =
      let (summary, window) = compaction_window events in assemble_messages summary window

-- ===== src/Turn/Parts.antt =====
-- `_unique_calls` and `_parts`: the events of a sample.
use Prim.Native.String.{◌++◌ as append_text}
use tantra.Prelude.{
  ℕ, zero, suc, String, Bool, true, Option, none, some, List, [], ◌∷◌, ◌++◌, ◌==◌, has, length, map,
  if◌then◌else◌,
}
use tantra.Prelude.Outcome.{Outcome, ok, raise, no_end}
use tantra.Prelude.Dict.{Dict}
use tantra.Json.{Json, Fields, text, object, nil, field}
use tantra.Events.{
  SessionEvent, ToolCallRequested, text_part, reasoning_part, tool_call_requested,
  tool_call_started, tool_call_completed, sample_completed,
}
use tantra.Messages.{StreamEnd, ToolCall, ReasoningBlock}

-- what `validate` gives: the value, or the text of the error
pub data Checked (A : Type 0) : Type 0 where
  valid : A → Checked A
  invalid : String → Checked A

-- `digest` names a call by its turn and sample, its index and the attempt.
module _ (digest : ℕ → ℕ → String) where
  -- the `while`
  unfoldable pub free_id : ℕ → List String → ℕ → ℕ → String → Outcome String
  free_id zero taken index attempt id = if has taken id then raise no_end else ok id
  free_id (suc fuel) taken index attempt id =
      let next = free_id fuel taken index (suc attempt) (digest index attempt) in
      if has taken id then next else ok id

  -- the calls under their ids, and the ids that are taken then
  unfoldable pub unique_calls :
      ℕ → List String → List ToolCall → Outcome (List ToolCall × List String)
  unfolding free_id
  unique_calls index taken [] = ok ([], taken)
  unique_calls index taken (call ∷ calls) =
      elim (free_id (suc (length taken)) taken index 0 call.id) [
        | raise e ↦ raise e
        | ok id ↦ elim (unique_calls (suc index) (id ∷ taken) calls) [
          | raise e ↦ raise e
          | ok (more, all_taken) ↦ ok (record call { id = id } ∷ more, all_taken)
        ]
      ]

-- a call and what was wrong with its arguments
abbrev pub Request : Type 0
Request = ToolCallRequested × Option String

-- `loads` is `json.loads`, and `is_blank` says that `strip` leaves nothing.
module _ (loads : String → Checked Json) (is_blank : String → Bool) where
  abbrev pub dict_of : Fields → Dict Json
  dict_of nil = []
  dict_of (field k v fs) = (k, v) ∷ dict_of fs

  abbrev pub as_object : Checked Json → Checked (Dict Json)
  as_object (valid (object fs)) = valid (dict_of fs)
  as_object (valid _) = invalid "arguments must be a JSON object"
  as_object (invalid e) = invalid e

  unfoldable pub parse_args : String → Checked (Dict Json)
  parse_args args = if is_blank args then valid [] else as_object (loads args)

  unfoldable pub request_of : String → ToolCall → Request
  unfolding parse_args
  request_of sample_id call = elim (parse_args call.args) [
    | valid args ↦
        (record { sample_id = sample_id; call_id = call.id; name = call.name; args = args }, none)
    | invalid e ↦
        (record { sample_id = sample_id; call_id = call.id; name = call.name; args = [] }, some e)
  ]

abbrev pub completion : String → Json → Bool → List SessionEvent
completion call_id result is_error =
    tool_call_started (record { call_id = call_id })
    ∷ tool_call_completed (record { call_id = call_id; result = result; is_error = is_error })
    ∷ []

abbrev pub rejected : List Request → List SessionEvent
rejected [] = []
rejected ((call, none) ∷ rs) = rejected rs
rejected ((call, some e) ∷ rs) =
    completion call.call_id (text (append_text "invalid JSON arguments: " e)) true ++ rejected rs

abbrev pub requested : List Request → List SessionEvent
requested [] = []
requested ((call, _) ∷ rs) = tool_call_requested call ∷ requested rs

abbrev pub reasoning_event : String → ReasoningBlock → SessionEvent
reasoning_event sample_id block =
    reasoning_part
      (record { sample_id = sample_id; text = block.text; signature = block.signature })

abbrev pub text_events : String → String → List SessionEvent
text_events sample_id said =
    if said == "" then [] else text_part (record { sample_id = sample_id; text = said }) ∷ []

-- the events of `_parts`
unfoldable pub parts : String → StreamEnd → List Request → List SessionEvent
parts sample_id end rs =
    map (reasoning_event sample_id) end.reasoning
    ++ (text_events sample_id end.text
        ++ (requested rs
            ++ (sample_completed (record {
              sample_id = sample_id;
              usage = end.usage;
              finish_reason = end.finish_reason;
            })
                ∷ rejected rs)))

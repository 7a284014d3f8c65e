-- ===== src/Events/Payloads.antt =====
-- events.py, ask.py: what each kind of event carries.
use tantra.Prelude.{
  ℕ, String, Bool, true, false, ◌&&◌, Option, none, some, List, ◌==◌, eqb, same_text, if◌then◌else◌,
}
use tantra.Prelude.Dict.{Dict}
use tantra.Json.{Json}

pub record Usage : Type 0 where
  pub input_tokens : ℕ
  pub output_tokens : ℕ
  pub cache_read_tokens : ℕ
  pub cache_write_tokens : ℕ

pub record SessionCreated : Type 0 where
  pub agent : String
  pub name : Option String
  pub root_id : Option String
  pub parent_id : Option String
  pub depth : ℕ
  pub model : Option String
  pub metadata : Dict Json

pub data Origin : Type 0 where
  user spawn message finished turn_ended event : Origin

pub record InputQueued : Type 0 where
  pub version : ℕ
  pub command_id : String
  pub input : String
  pub submitted_by : Option String
  pub sender_id : Option String
  pub origin : Option Origin

pub record TurnStarted : Type 0 where
  pub turn_id : String
  pub input : String

pub record SampleStarted : Type 0 where
  pub turn_id : String
  pub sample_id : String
  pub model : String

pub record TextDelta : Type 0 where
  pub text : String

pub record ReasoningDelta : Type 0 where
  pub text : String

pub record ToolCallDelta : Type 0 where
  pub index : ℕ
  pub id : Option String
  pub name : Option String
  pub args_fragment : String

pub record TextPart : Type 0 where
  pub sample_id : String
  pub text : String

pub record ReasoningPart : Type 0 where
  pub sample_id : String
  pub text : String
  pub signature : Option String

pub record ToolCallRequested : Type 0 where
  pub sample_id : String
  pub call_id : String
  pub name : String
  pub args : Dict Json

pub record ToolCallStarted : Type 0 where
  pub call_id : String

pub record ToolProgress : Type 0 where
  pub call_id : String
  pub message : String

pub record ToolCallCompleted : Type 0 where
  pub call_id : String
  pub result : Json
  pub is_error : Bool

pub record ChildCreated : Type 0 where
  pub child_id : String
  pub agent : String
  pub name : Option String
  pub turn_id : String
  pub call_id : String

pub record AgentFinished : Type 0 where
  pub result : Json

pub data AskRequest : Type 0 where
  approval : String → String → Dict Json → AskRequest
  choice : String → List String → Dict Json → AskRequest
  free_text : String → Dict Json → AskRequest

pub data AskResponse : Type 0 where
  allow : Bool → AskResponse
  selected : String → AskResponse
  answer : String → AskResponse

pub record AskRaised : Type 0 where
  pub ask_id : String
  pub call_id : Option String
  pub request : AskRequest

pub record AskAnswered : Type 0 where
  pub ask_id : String
  pub response : AskResponse
  pub command_id : Option String
  pub answered_by : Option String
  pub submitted_by : Option String

pub record SampleCompleted : Type 0 where
  pub sample_id : String
  pub usage : Usage
  pub finish_reason : Option String

pub record CompactionApplied : Type 0 where
  pub strategy : String
  pub tokens_before : ℕ
  pub tokens_after : ℕ
  pub summary : String
  pub floor_turn_id : Option String

pub record CancellationRequested : Type 0 where
  pub command_id : String
  pub targets : Dict (List String)
  pub submitted_by : Option String
  pub descendants : Bool

pub record TurnCompleted : Type 0 where
  pub turn_id : String
  pub stop_reason : String
  pub output : Json

pub record TurnFailed : Type 0 where
  pub turn_id : String
  pub error : String

pub record TurnCancelled : Type 0 where
  pub turn_id : String
  pub reason : String

pub record TurnInterrupted : Type 0 where
  pub turn_id : String
  pub reason : String

abbrev pub same_origin : Option Origin → Option Origin → Bool
same_origin none none = true
same_origin (some user) (some user) = true
same_origin (some spawn) (some spawn) = true
same_origin (some message) (some message) = true
same_origin (some finished) (some finished) = true
same_origin (some turn_ended) (some turn_ended) = true
same_origin (some event) (some event) = true
same_origin _ _ = false

-- pydantic's field by field equality
unfoldable pub same_fields : InputQueued → InputQueued → Bool
same_fields a b =
    eqb a.version b.version
    && a.command_id == b.command_id
    && a.input == b.input
    && same_text a.submitted_by b.submitted_by
    && same_text a.sender_id b.sender_id
    && same_origin a.origin b.origin

abbrev pub cleared : InputQueued → InputQueued
cleared a = record a { sender_id = none; origin = none }

abbrev pub one_origin_missing : Option Origin → Option Origin → Bool
one_origin_missing none (some _) = true
one_origin_missing (some _) none = true
one_origin_missing _ _ = false

-- `InputQueued.__eq__`
unfoldable pub same_input : InputQueued → InputQueued → Bool
unfolding same_fields
same_input a b =
    if one_origin_missing a.origin b.origin
    then same_fields (cleared a) (cleared b)
    else same_fields a b

-- ===== src/Events.antt =====
-- events.py: the events of a session's journal, and the session header. Texts, ids and UUIDs are
-- `String`; a time is a number, since the code only compares times. Of `EventBase` the `version` is
-- kept where an event is compared, and the fields that `extra="allow"` lets in are left out: the
-- modelled code reads neither.
mod Payloads
unfoldable pub use Payloads.*
use tantra.Prelude.{ℕ, String, Bool, Option, List}
use tantra.Prelude.Dict.{Dict}
use tantra.Json.{Json}

pub data SessionEvent : Type 0 where
  session_created : SessionCreated → SessionEvent
  input_queued : InputQueued → SessionEvent
  turn_started : TurnStarted → SessionEvent
  sample_started : SampleStarted → SessionEvent
  text_delta : TextDelta → SessionEvent
  reasoning_delta : ReasoningDelta → SessionEvent
  tool_call_delta : ToolCallDelta → SessionEvent
  text_part : TextPart → SessionEvent
  reasoning_part : ReasoningPart → SessionEvent
  tool_call_requested : ToolCallRequested → SessionEvent
  tool_call_started : ToolCallStarted → SessionEvent
  tool_progress : ToolProgress → SessionEvent
  tool_call_completed : ToolCallCompleted → SessionEvent
  child_created : ChildCreated → SessionEvent
  agent_finished : AgentFinished → SessionEvent
  ask_raised : AskRaised → SessionEvent
  ask_answered : AskAnswered → SessionEvent
  sample_completed : SampleCompleted → SessionEvent
  compaction_applied : CompactionApplied → SessionEvent
  cancellation_requested : CancellationRequested → SessionEvent
  turn_completed : TurnCompleted → SessionEvent
  turn_failed : TurnFailed → SessionEvent
  turn_cancelled : TurnCancelled → SessionEvent
  turn_interrupted : TurnInterrupted → SessionEvent

pub data SessionStatus : Type 0 where
  queued running awaiting_input idle finished failed cancelled interrupted : SessionStatus

pub data TurnOutcome : Type 0 where
  completed failed cancelled interrupted : TurnOutcome

pub record TurnSummary : Type 0 where
  pub turn_id : String
  pub outcome : TurnOutcome
  pub stop_reason : Option String
  pub error : Option String

pub record Stamped : Type 0 where
  pub seq : ℕ
  pub event : SessionEvent

pub record SessionHeader : Type 0 where
  pub id : String
  pub root_id : Option String
  pub agent : String
  pub name : Option String
  pub parent_id : Option String
  pub depth : ℕ
  pub model : Option String
  pub created_at : ℕ
  pub updated_at : ℕ
  pub title : Option String
  pub status : SessionStatus
  pub metadata : Dict Json
  pub last_seq : ℕ
  pub usage : Usage
  pub pending_ask : Option String
  pub finished : Bool
  pub current_turn_id : Option String
  pub last_turn : Option TurnSummary

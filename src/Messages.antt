-- ===== src/Messages.antt =====
-- providers/base.py: what a request to a model is made of.
use tantra.Prelude.{ℕ, String, Bool, Option, List}
use tantra.Prelude.Dict.{Dict}
use tantra.Json.{Json}
use tantra.Events.{TextDelta, ReasoningDelta, ToolCallDelta, Usage}

pub record ModelLimits : Type 0 where
  pub context_window : ℕ
  pub max_output : ℕ

pub record SystemBlock : Type 0 where
  pub text : String
  pub cache : Bool

pub record ReasoningBlock : Type 0 where
  pub text : String
  pub signature : Option String

pub record ToolCall : Type 0 where
  pub id : String
  pub name : String
  pub args : String

pub record AssistantMessage : Type 0 where
  pub text : Option String
  pub reasoning : List ReasoningBlock
  pub tool_calls : List ToolCall

pub record ToolResultMessage : Type 0 where
  pub call_id : String
  pub content : String
  pub is_error : Bool

pub data Message : Type 0 where
  user : String → Message
  assistant : AssistantMessage → Message
  tool : ToolResultMessage → Message

pub record ToolSchema : Type 0 where
  pub name : String
  pub description : String
  pub parameters : Dict Json

pub record SampleRequest : Type 0 where
  pub model : String
  pub system : List SystemBlock
  pub messages : List Message
  pub tools : List ToolSchema
  pub params : Dict Json

pub record StreamEnd : Type 0 where
  pub text : String
  pub reasoning : List ReasoningBlock
  pub tool_calls : List ToolCall
  pub usage : Usage
  pub finish_reason : Option String

pub data ProviderEvent : Type 0 where
  text_delta : TextDelta → ProviderEvent
  reasoning_delta : ReasoningDelta → ProviderEvent
  tool_call_delta : ToolCallDelta → ProviderEvent
  tool_call : ToolCall → ProviderEvent
  stream_end : StreamEnd → ProviderEvent

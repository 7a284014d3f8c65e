-- ===== src/Coordinator.antt =====
-- coordinator.py: several processes share the sessions of a database, and at most one of them owns a
-- tree at a time. This module has the messages that they exchange. UUIDs are strings.
pub mod Database
pub mod Lease
pub mod Transaction
pub mod Requests
mod Running
mod Tests
pub mod System
pub mod Fencing
pub mod Exclusive
pub mod Replies
pub mod Resent
pub mod Lasting
use tantra.Prelude.{
  ℕ, String, Bool, true, false, ◌&&◌, ◌||◌, not, Option, none, some, [], ◌==◌, if◌then◌else◌,
  is_some, or_text,
}
use tantra.Prelude.Dict.{Dict}
use tantra.Prelude.Outcome.{
  Outcome, ok, raise, raise_if, remote_execution, value_error, ◌>>◌, ◌>>=◌,
}
use tantra.Json.{Json}
use tantra.Events.{AskResponse}

pub record Ownership : Type 0 where
  pub root_id : String
  pub instance_id : String
  pub generation : ℕ
  pub expires_at : ℕ

pub record WriterToken : Type 0 where
  pub root_id : String
  pub connection_id : String

pub data CommandOperation : Type 0 where
  claim_writer release_writer send answer cancel deliver delete : CommandOperation

pub record SendPayload : Type 0 where
  pub command_id : String
  pub input : String
  pub submitted_by : Option String

pub record AnswerPayload : Type 0 where
  pub command_id : String
  pub ask_id : String
  pub response : AskResponse
  pub submitted_by : Option String

pub record CancelPayload : Type 0 where
  pub command_id : String
  pub submitted_by : Option String
  pub descendants : Bool

pub record DeliverPayload : Type 0 where
  pub command_id : String
  pub agent_id : String
  pub input : String
  pub source : String

pub record DeletePayload : Type 0 where
  pub allow_active : Bool
  pub expected_revision : Option String

pub data CommandPayload : Type 0 where
  claim_writer_payload : String → CommandPayload
  release_writer_payload : CommandPayload
  send_payload : SendPayload → CommandPayload
  answer_payload : AnswerPayload → CommandPayload
  cancel_payload : CancelPayload → CommandPayload
  deliver_payload : DeliverPayload → CommandPayload
  delete_payload : DeletePayload → CommandPayload

-- a deadline has a time zone
pub record CommandEnvelope : Type 0 where
  pub request_id : String
  pub root_id : String
  pub operation : CommandOperation
  pub writer_token : Option WriterToken
  pub payload : CommandPayload
  pub deadline : ℕ

-- the payload's `type`
abbrev pub operation_of : CommandPayload → CommandOperation
operation_of (claim_writer_payload _) = claim_writer
operation_of release_writer_payload = release_writer
operation_of (send_payload _) = send
operation_of (answer_payload _) = answer
operation_of (cancel_payload _) = cancel
operation_of (deliver_payload _) = deliver
operation_of (delete_payload _) = delete

abbrev pub same_operation : CommandOperation → CommandOperation → Bool
same_operation claim_writer claim_writer = true
same_operation release_writer release_writer = true
same_operation send send = true
same_operation answer answer = true
same_operation cancel cancel = true
same_operation deliver deliver = true
same_operation delete delete = true
same_operation _ _ = false

-- the operations that carry no writer token; the others need one
abbrev pub without_token : CommandOperation → Bool
without_token claim_writer = true
without_token deliver = true
without_token delete = true
without_token _ = false

abbrev pub belongs_to : String → Option WriterToken → Bool
belongs_to root none = true
belongs_to root (some token) = token.root_id == root

unfoldable pub validate_operation : CommandEnvelope → Outcome CommandEnvelope
validate_operation e = do
  raise_if (not (same_operation e.operation (operation_of e.payload))) value_error
  raise_if (without_token e.operation && is_some e.writer_token) value_error
  raise_if (not (without_token e.operation) && not (is_some e.writer_token)) value_error
  raise_if (not (belongs_to e.root_id e.writer_token)) value_error
  ok e

pub data ReplyStatus : Type 0 where
  ok_status error_status ownership_changed : ReplyStatus

pub record CommandReply : Type 0 where
  pub request_id : String
  pub status : ReplyStatus
  pub result : Option (Dict Json)
  pub error_code : Option String
  pub message : Option String
  pub retryable : Bool

abbrev pub status_text : ReplyStatus → String
status_text ok_status = "ok"
status_text error_status = "error"
status_text ownership_changed = "ownership_changed"

abbrev pub result_or_empty : Option (Dict Json) → Dict Json
result_or_empty none = []
result_or_empty (some d) = d

abbrev pub or_status : Option String → ReplyStatus → String
or_status none status = status_text status
or_status (some m) _ = m

unfoldable pub unwrap : CommandReply → Outcome (Dict Json)
unwrap r = elim r.status [
  | ok_status ↦ ok (result_or_empty r.result)
  | _ ↦
      raise (
        remote_execution
          (some (or_status (or_text r.message (or_text r.error_code none)) r.status)))
]

pub data ChangeKind : Type 0 where
  journal_change header_change ownership_change writer_change activity_change : ChangeKind
  recovery_change request_change deleted_change : ChangeKind

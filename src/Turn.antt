-- ===== src/Turn.antt =====
-- loop.py: a turn of a session. The engine samples the model, runs the tool calls of each sample and
-- samples again, until a sample has no calls. What it writes to the journal is the list of events in
-- `Engine`. What the model answers, tools return, people say and hooks decide are functions of the
-- journal so far: the same question may be answered in another way later.
mod Tests
mod IdTests
pub mod Stream
pub mod Sampling
pub mod Parts
pub mod Setup
pub mod Tools
pub mod Batch
pub mod Drive
pub mod Counts
pub mod Owing
pub mod Paying
pub mod Pairing
pub mod Batches
pub mod Asking
pub mod Quiet
pub mod Finishing
pub mod Completes
pub mod Ends
pub mod Tries
pub mod Ids
use tantra.Prelude.{
  ℕ, ◌+◌, String, Bool, true, false, ◌&&◌, ◌||◌, not, Option, none, some, List, [], ◌∷◌, ◌++◌, any,
  eqb, leb, if◌then◌else◌,
}
use tantra.Prelude.Outcome.{ok}
use tantra.Prelude.Stateful.{Does}
use tantra.Prelude.Dict.{Dict}
use tantra.Json.{Json}
use tantra.Events.{
  SessionEvent, Usage, CompactionApplied, compaction_applied, ToolCallRequested, AskRaised,
  AskAnswered, InputQueued,
}
use tantra.Context.{compacted_history}

pub record ProviderError : Type 0 where
  pub status_code : Option ℕ
  pub retryable : Option Bool
  pub context_overflow : Bool

pub record RetryConfig : Type 0 where
  pub max_attempts : ℕ

abbrev pub default_retry : RetryConfig
default_retry = record { max_attempts = 3 }

-- the statuses that mean: later
abbrev pub is_temporary : Option ℕ → Bool
is_temporary none = false
is_temporary (some status) = eqb status 429 || leb 500 status

abbrev pub is_true : Option Bool → Bool
is_true (some true) = true
is_true _ = false

unfoldable pub is_retryable : ProviderError → Bool
is_retryable e =
    if e.context_overflow
    then false
    else if is_true e.retryable
    then true
    else is_temporary e.status_code

unfoldable pub accumulate : Usage → Usage → Usage
accumulate total sample = record {
  input_tokens = total.input_tokens + sample.input_tokens;
  output_tokens = total.output_tokens + sample.output_tokens;
  cache_read_tokens = total.cache_read_tokens + sample.cache_read_tokens;
  cache_write_tokens = total.cache_write_tokens + sample.cache_write_tokens;
}

-- `history` is what the engine holds, `log` what was added to the journal since the turn began, also
-- by the runtime while the turn waited, and `calls_made` the number of requests sent to the model.
pub record Engine : Type 0 where
  pub history : List SessionEvent
  pub log : List SessionEvent
  pub call_ids : List String
  pub usage : Usage
  pub calls_made : ℕ
  pub terminal : Option SessionEvent

abbrev pub Act : Type 0 → Type 0
Act = Does Engine

abbrev pub is_applied : SessionEvent → Bool
is_applied (compaction_applied _) = true
is_applied _ = false

-- `_trim_history` after events that a compaction may be among
abbrev pub trim_after : Bool → List SessionEvent → List SessionEvent → List SessionEvent
trim_after compacts events history =
    if compacts && any is_applied events then compacted_history history else history

-- `_append` of events, and `_absorb` of events that others appended; `compacts` is
-- `history_mode == "compacted"`
unfoldable pub append : Bool → List SessionEvent → Act (Unit {0})
append compacts events engine = (
  ok tt,
  record engine {
    history = trim_after compacts events (engine.history ++ events);
    log = engine.log ++ events;
  },
)

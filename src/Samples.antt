-- ===== src/Samples.antt =====
-- Concrete sessions, events and stores for the tests.
use tantra.Prelude.{String, false, ◌==◌, Option, none, some, List, [], ◌∷◌, if◌then◌else◌}
use tantra.Json.{null}
use tantra.Events.{
  SessionEvent, SessionHeader, SessionStatus, InputQueued, TurnStarted, ToolCallCompleted,
  CompactionApplied, Usage, input_queued, turn_started, text_part, tool_call_requested,
  tool_call_completed, turn_completed,
}

abbrev pub no_usage : Usage
no_usage = record {
  input_tokens = 0;
  output_tokens = 0;
  cache_read_tokens = 0;
  cache_write_tokens = 0;
}

abbrev pub header_of : String → Option String → SessionHeader
header_of id parent = record {
  id = id;
  root_id = some "root";
  agent = "writer";
  name = none;
  parent_id = parent;
  depth = 0;
  model = none;
  created_at = 1;
  updated_at = 1;
  title = none;
  status = SessionStatus.idle;
  metadata = [];
  last_seq = 0;
  usage = no_usage;
  pending_ask = none;
  finished = false;
  current_turn_id = none;
  last_turn = none;
}

abbrev pub command : String → String → InputQueued
command id input = record {
  version = 1;
  command_id = id;
  input = input;
  submitted_by = none;
  sender_id = none;
  origin = none;
}

abbrev pub start : String → TurnStarted
start id = record { turn_id = id; input = "go" }

abbrev pub result_of : String → ToolCallCompleted
result_of id = record { call_id = id; result = null; is_error = false }

abbrev pub applied : CompactionApplied
applied = record {
  strategy = "prune_then_summarize";
  tokens_before = 9;
  tokens_after = 3;
  summary = "so far";
  floor_turn_id = some "b";
}

-- one turn with a tool call
abbrev pub one_turn : String → String → List SessionEvent
one_turn id call =
    turn_started (start id)
    ∷ text_part (record { sample_id = id; text = "let me look" })
    ∷ tool_call_requested (record { sample_id = id; call_id = call; name = "read"; args = [] })
    ∷ tool_call_completed (result_of call)
    ∷ turn_completed (record { turn_id = id; stop_reason = "done"; output = null })
    ∷ []

-- a turn that ended, and one that runs while another command waits
abbrev pub journal : List SessionEvent
journal =
    input_queued (command "a" "first")
    ∷ turn_started (start "a")
    ∷ turn_completed (record { turn_id = "a"; stop_reason = "done"; output = null })
    ∷ input_queued (command "b" "second")
    ∷ input_queued (command "c" "third")
    ∷ turn_started (start "b")
    ∷ []

-- `UUID` of the ids that are used here
abbrev pub uuid : String → Option String
uuid id = if id == "a" then some id else if id == "b" then some id else none

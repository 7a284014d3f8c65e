-- ===== src/Journal.antt =====
-- stores/base.py, `reduce_journal`: what is still to do, read off a session's whole journal. The
-- events are those of the stamped items (`item.event`).
mod Tests
pub mod Machine
pub mod Refines
use tantra.Prelude.{
  String, Bool, ◌&&◌, not, Option, none, some, List, map, has, filter, filter_map, find_last,
}
use tantra.Events.{
  SessionEvent, InputQueued, TurnStarted, input_queued, turn_started, turn_completed, turn_failed,
  turn_cancelled, turn_interrupted,
}

pub record JournalState : Type 0 where
  pub pending : List InputQueued
  pub incomplete : Option TurnStarted

-- the `isinstance` tests
abbrev pub terminal_id : SessionEvent → Option String
terminal_id (turn_completed e) = some e.turn_id
terminal_id (turn_failed e) = some e.turn_id
terminal_id (turn_cancelled e) = some e.turn_id
terminal_id (turn_interrupted e) = some e.turn_id
terminal_id _ = none

abbrev pub as_started : SessionEvent → Option TurnStarted
as_started (turn_started e) = some e
as_started _ = none

abbrev pub as_queued : SessionEvent → Option InputQueued
as_queued (input_queued e) = some e
as_queued _ = none

abbrev pub turn_ids : List TurnStarted → List String
turn_ids = map (λ t. t.turn_id)

-- neither started nor ended
abbrev pub waits : List String → List String → InputQueued → Bool
waits started terminal e = not (has started e.command_id) && not (has terminal e.command_id)

abbrev pub unfinished : List String → TurnStarted → Bool
unfinished terminal t = not (has terminal t.turn_id)

unfoldable pub reduce_journal : List SessionEvent → JournalState
reduce_journal events =
    let terminal = filter_map terminal_id events in
    let starts = filter_map as_started events in
    record {
      pending = filter (waits (turn_ids starts) terminal) (filter_map as_queued events);
      incomplete = find_last (unfinished terminal) starts;
    }

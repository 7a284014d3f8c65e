-- ===== src/Recovery.antt =====
-- runtime.py: how a new owner of a tree settles what the last one left, `_reduce_operational` and
-- the events that `_recover_locked` appends for one actor. `cancelled` are the cancellations that
-- the root's journal names. The notifications and activations that follow are not modelled.
mod Tests
pub mod Settles
pub mod Paging
use tantra.Prelude.{
  ℕ, zero, suc, String, Bool, not, Option, none, some, List, [], ◌∷◌, ◌++◌, has, last?, filter,
  filter_map, map, if◌then◌else◌, to_list,
}
use tantra.Prelude.Dict
use tantra.Prelude.Dict.{Dict}
use tantra.Events.{
  SessionEvent, Stamped, AgentFinished, InputQueued, TurnStarted, agent_finished,
  cancellation_requested, turn_cancelled, turn_interrupted,
}
use tantra.Journal.{reduce_journal}
use tantra.MemoryStore.{MemoryStore, read_page}

pub record OperationalState : Type 0 where
  pub pending : List InputQueued
  pub incomplete : Option TurnStarted
  pub finished : Option AgentFinished
  pub cancellations : Dict (List String)
  pub last_seq : ℕ
  pub version : ℕ

abbrev pub events_of : List Stamped → List SessionEvent
events_of = map (λ item. item.event)

abbrev pub as_finished : SessionEvent → Option AgentFinished
as_finished (agent_finished e) = some e
as_finished _ = none

-- `_finished`
abbrev pub last_finished : List Stamped → Option AgentFinished
last_finished journal = last? (filter_map as_finished (events_of journal))

-- each turn once, in the order of the requests
abbrev pub add_turns : String → List String → Dict (List String) → Dict (List String)
add_turns actor [] d = d
add_turns actor (turn ∷ turns) d =
    let known = Dict.get_or d actor [] in
    add_turns actor turns (Dict.put d actor (if has known turn then known else known ++ turn ∷ []))

abbrev pub add_targets : Dict (List String) → Dict (List String) → Dict (List String)
add_targets [] d = d
add_targets ((actor, turns) ∷ targets) d = add_targets targets (add_turns actor turns d)

abbrev pub add_cancellations : List SessionEvent → Dict (List String) → Dict (List String)
add_cancellations [] d = d
add_cancellations (cancellation_requested e ∷ events) d =
    add_cancellations events (add_targets e.targets d)
add_cancellations (_ ∷ events) d = add_cancellations events d

abbrev pub last_number : List Stamped → ℕ
last_number journal = elim (last? journal) [ none ↦ 0 | some item ↦ item.seq ]

unfoldable pub reduce_operational : List Stamped → OperationalState
reduce_operational journal =
    let state = reduce_journal (events_of journal) in
    record {
      pending = state.pending;
      incomplete = state.incomplete;
      finished = last_finished journal;
      cancellations = add_cancellations (events_of journal) [];
      last_seq = last_number journal;
      version = 1;
    }

abbrev pub live_turns : OperationalState → List String
live_turns state =
    map (λ e. e.command_id) state.pending ++ map (λ t. t.turn_id) (to_list state.incomplete)

abbrev pub cancel : String → SessionEvent
cancel turn = turn_cancelled (record { turn_id = turn; reason = "cancelled" })

abbrev pub cancelled_turns : Dict (List String) → String → OperationalState → List String
cancelled_turns cancelled actor state =
    filter (has (live_turns state)) (Dict.get_or cancelled actor [])

abbrev pub interrupt : List String → Option TurnStarted → List SessionEvent
interrupt settled none = []
interrupt settled (some t) =
    if has settled t.turn_id
    then []
    else turn_interrupted (record { turn_id = t.turn_id; reason = "owner_lost" }) ∷ []

-- `terminals`, for one actor
unfoldable pub recovery_events : Dict (List String) → String → OperationalState → List SessionEvent
recovery_events cancelled actor state =
    let settled = cancelled_turns cancelled actor state in
    map cancel settled ++ interrupt settled state.incomplete

-- `_journal`, which reads a log by pages of a thousand, on a `MemoryStore`; `none` means that the
-- fuel ran out before the last page.
unfoldable pub read_journal : ℕ → String → ℕ → MemoryStore → Option (List Stamped)
read_journal zero sid after s = none
read_journal (suc fuel) sid after s =
    let page = read_page sid after 1000 s in
    elim (last? page) [
      | none ↦ some []
      | some item ↦ elim (read_journal fuel sid item.seq s) [
        | none ↦ none
        | some rest ↦ some (page ++ rest)
      ]
    ]

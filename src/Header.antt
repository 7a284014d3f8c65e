-- ===== src/Header.antt =====
-- stores/base.py: `reduce_header`, which folds new events into the mutable session header, and
-- `apply_patch`. `UUID(hex=…)` is the standard library's: `uuid` is its result, or `none` where it
-- raises `ValueError`. The clock's reading is the argument `now`.
mod Tests
pub mod Agrees
use tantra.Prelude.{
  ℕ, String, Bool, true, false, ◌&&◌, not, Option, none, some, List, [], ◌∷◌, is_some,
  if◌then◌else◌,
}
use tantra.Prelude.Dict
use tantra.Prelude.Dict.{Dict}
use tantra.Prelude.Outcome.{Outcome, ok, raise, value_error, ◌>>=◌}
use tantra.Json.{Json}
use tantra.Events.{
  SessionEvent, SessionHeader, SessionStatus, TurnOutcome, TurnSummary, Usage, input_queued,
  turn_started, ask_raised, ask_answered, turn_completed, turn_failed, turn_cancelled,
  turn_interrupted, agent_finished,
}

-- the keyword arguments of `apply_patch`: `none` is `UNSET`
pub record Patch : Type 0 where
  pub title : Option (Option String)
  pub model : Option (Option String)
  pub status : Option SessionStatus
  pub pending_ask : Option (Option String)
  pub usage : Option Usage
  pub metadata : Option (Dict Json)
  pub finished : Option Bool

abbrev pub or_keep {ℓ} : {A : Type ℓ} → Option A → A → A
or_keep none old = old
or_keep (some new) _ = new

abbrev pub merged : Option (Dict Json) → Dict Json → Dict Json
merged none old = old
merged (some new) old = Dict.merge old new

unfoldable pub apply_patch : ℕ → SessionHeader → Patch → SessionHeader
apply_patch now h p = record h {
  updated_at = now;
  title = or_keep p.title h.title;
  model = or_keep p.model h.model;
  status = or_keep p.status h.status;
  metadata = merged p.metadata h.metadata;
  usage = or_keep p.usage h.usage;
  pending_ask = or_keep p.pending_ask h.pending_ask;
  finished = or_keep p.finished h.finished;
}

-- what the four terminal branches share
abbrev pub ended : SessionStatus → TurnSummary → SessionHeader → SessionHeader
ended status turn h = record h {
  status = status;
  pending_ask = none;
  current_turn_id = none;
  last_turn = some turn;
}

module _ (uuid : String → Option String) where
  unfoldable pub summary :
      String → TurnOutcome → Option String → Option String → Outcome TurnSummary
  summary turn_id outcome stop_reason error = elim (uuid turn_id) [
    | none ↦ raise value_error
    | some id ↦
        ok (record { turn_id = id; outcome = outcome; stop_reason = stop_reason; error = error })
  ]

  -- the body of the loop
  unfoldable pub apply_event : SessionHeader → SessionEvent → Outcome SessionHeader
  unfolding summary
  apply_event h (input_queued e) = ok (
      if not (is_some h.current_turn_id) && not h.finished
      then record h { status = SessionStatus.queued }
      else h)
  apply_event h (turn_started e) = ok (record h {
    status = SessionStatus.running;
    pending_ask = none;
    current_turn_id = some e.turn_id;
  })
  apply_event h (ask_raised e) = ok (
      if is_some h.parent_id
      then h
      else record h { status = SessionStatus.awaiting_input; pending_ask = some e.ask_id })
  apply_event h (ask_answered e) =
      ok (record h { status = SessionStatus.running; pending_ask = none })
  apply_event h (turn_completed e) = do
    turn ← summary e.turn_id TurnOutcome.completed (some e.stop_reason) none
    ok (ended SessionStatus.idle turn h)
  apply_event h (turn_failed e) = do
    turn ← summary e.turn_id TurnOutcome.failed none (some e.error)
    ok (ended SessionStatus.failed turn h)
  apply_event h (turn_cancelled e) = do
    turn ← summary e.turn_id TurnOutcome.cancelled (some e.reason) none
    ok (ended SessionStatus.cancelled turn h)
  apply_event h (turn_interrupted e) = do
    turn ← summary e.turn_id TurnOutcome.interrupted (some e.reason) none
    ok (ended SessionStatus.interrupted turn h)
  apply_event h (agent_finished e) = ok (record h {
    status = SessionStatus.finished;
    pending_ask = none;
    finished = true;
    current_turn_id = none;
  })
  apply_event h _ = ok h

  unfoldable pub apply_events : SessionHeader → List SessionEvent → Outcome SessionHeader
  apply_events h [] = ok h
  apply_events h (e ∷ es) = elim (apply_event h e) [
    | ok h' ↦ apply_events h' es
    | raise x ↦ raise x
  ]

  unfoldable pub reduce_header : ℕ → SessionHeader → List SessionEvent → Outcome SessionHeader
  reduce_header now h events = do h' ← apply_events h events; ok (record h' { updated_at = now })

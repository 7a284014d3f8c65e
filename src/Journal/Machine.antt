-- ===== src/Journal/Machine.antt =====
-- The life of an actor, one event at a time: commands wait in a queue, at most one turn runs, and
-- a turn that ends leaves both. The runtime starts a turn only when none runs.
use tantra.Prelude.{
  String, ◌≡◌, false, not, Option, none, some, List, [], ◌∷◌, ◌++◌, has, filter, ◌==◌,
  if◌then◌else◌,
}
use tantra.Events.{
  SessionEvent, InputQueued, TurnStarted, input_queued, turn_started, turn_completed, turn_failed,
  turn_cancelled, turn_interrupted,
}

pub record Live : Type 0 where
  pub queue : List InputQueued
  pub running : Option TurnStarted
  pub started : List String
  pub ended : List String

abbrev pub idle : Live
idle = record { queue = []; running = none; started = []; ended = [] }

-- the queue without the commands of one turn
abbrev pub without : String → List InputQueued → List InputQueued
without turn = filter (λ e. not (e.command_id == turn))

abbrev pub stop : String → Option TurnStarted → Option TurnStarted
stop turn none = none
stop turn (some t) = if t.turn_id == turn then none else some t

abbrev pub end_turn : String → Live → Live
end_turn turn s = record s {
  queue = without turn s.queue;
  running = stop turn s.running;
  ended = s.ended ++ turn ∷ [];
}

abbrev pub advance : Live → SessionEvent → Live
advance s (input_queued e) = record s { queue = s.queue ++ e ∷ [] }
advance s (turn_started t) = record s {
  queue = without t.turn_id s.queue;
  running = some t;
  started = s.started ++ t.turn_id ∷ [];
}
advance s (turn_completed e) = end_turn e.turn_id s
advance s (turn_failed e) = end_turn e.turn_id s
advance s (turn_cancelled e) = end_turn e.turn_id s
advance s (turn_interrupted e) = end_turn e.turn_id s
advance s _ = s

abbrev pub run : Live → List SessionEvent → Live
run s [] = s
run s (e ∷ es) = run (advance s e) es

-- A command is queued under a new id, and a turn starts when none runs, under an id that has not
-- ended.
abbrev pub Allowed : Live → SessionEvent → Type 0
Allowed s (input_queued e) =
    (has s.started e.command_id ≡ false) × (has s.ended e.command_id ≡ false)
Allowed s (turn_started t) = (s.running ≡ none) × (has s.ended t.turn_id ≡ false)
Allowed s _ = Unit

abbrev pub IsJournal : Live → List SessionEvent → Type 0
IsJournal s [] = Unit
IsJournal s (e ∷ es) = Allowed s e × IsJournal (advance s e) es

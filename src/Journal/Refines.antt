-- ===== src/Journal/Refines.antt =====
-- `reduce_journal`, which scans the journal again from the start, computes the machine's state.
use tantra.Prelude.{
  String, ◌≡◌, refl, false, not, Option, none, some, List, [], ◌∷◌, ◌++◌, arith, has, has-append,
  filter, filter-append, filter_map, filter_map-append, filter_map-snoc_none, filter_map-snoc_some,
  map-append, last?, to_list, ◌==◌, eq_iff, append_assoc, append-nil,
}
use tantra.Events.{
  SessionEvent, InputQueued, TurnStarted, input_queued, turn_started, turn_completed, turn_failed,
  turn_cancelled, turn_interrupted,
}
use tantra.Journal.{reduce_journal, terminal_id, as_started, as_queued, turn_ids, waits, unfinished}
use tantra.Journal.Machine.{Live, idle, without, stop, end_turn, advance, run, Allowed, IsJournal}

-- the scan of `xs` is the state `s`
record Tracks (xs : List SessionEvent) (s : Live) : Type 0 where
  started : turn_ids (filter_map as_started xs) ≡ s.started
  ended : filter_map terminal_id xs ≡ s.ended
  queue : filter (waits s.started s.ended) (filter_map as_queued xs) ≡ s.queue
  running : filter (unfinished s.ended) (filter_map as_started xs) ≡ to_list s.running

filter-waits_started :
    (S E : List String) (id : String) (l : List InputQueued)
    → filter (waits (S ++ id ∷ []) E) l ≡ without id (filter (waits S E) l)
filter-waits_started S E id [] = refl
filter-waits_started S E id (e ∷ l) = ground (
  arith,
  filter-waits_started S E id l,
  has-append S (id ∷ []) e.command_id,
  eq_iff id e.command_id,
  eq_iff e.command_id id,
)

filter-waits_ended :
    (S E : List String) (id : String) (l : List InputQueued)
    → filter (waits S (E ++ id ∷ [])) l ≡ without id (filter (waits S E) l)
filter-waits_ended S E id [] = refl
filter-waits_ended S E id (e ∷ l) = ground (
  arith,
  filter-waits_ended S E id l,
  has-append E (id ∷ []) e.command_id,
  eq_iff id e.command_id,
  eq_iff e.command_id id,
)

filter-unfinished :
    (E : List String) (id : String) (l : List TurnStarted)
    → filter (unfinished (E ++ id ∷ [])) l
      ≡ filter (λ t. not (t.turn_id == id)) (filter (unfinished E) l)
filter-unfinished E id [] = refl
filter-unfinished E id (t ∷ l) = ground (
  arith,
  filter-unfinished E id l,
  has-append E (id ∷ []) t.turn_id,
  eq_iff id t.turn_id,
  eq_iff t.turn_id id,
)

filter-to_list :
    (id : String) (r : Option TurnStarted)
    → filter (λ t. not (t.turn_id == id)) (to_list r) ≡ to_list (stop id r)
filter-to_list id none = refl
filter-to_list id (some t) = ground arith

-- An event that ends the turn `id` closes it.
Tracks-end :
    (xs : List SessionEvent) (s : Live) (e : SessionEvent) (id : String)
    → terminal_id e ≡ some id
    → as_started e ≡ none
    → as_queued e ≡ none
    → Tracks xs s
    → Tracks (xs ++ e ∷ []) (end_turn id s)
Tracks-end xs s e id t n q h = record {
  started = simp (filter_map-snoc_none as_started xs e n, h.started);
  ended = simp (filter_map-snoc_some terminal_id xs e t, h.ended);
  queue = simp (filter_map-snoc_none as_queued xs e q, filter-waits_ended, h.queue);
  running =
      simp (filter_map-snoc_none as_started xs e n, filter-unfinished, h.running, filter-to_list);
}

-- An event that is none of the three kinds changes nothing.
Tracks-skip :
    (xs : List SessionEvent) (s : Live) (e : SessionEvent)
    → terminal_id e ≡ none
    → as_started e ≡ none
    → as_queued e ≡ none
    → Tracks xs s
    → Tracks (xs ++ e ∷ []) s
Tracks-skip xs s e t n q h = record {
  started = simp (filter_map-snoc_none as_started xs e n, h.started);
  ended = simp (filter_map-snoc_none terminal_id xs e t, h.ended);
  queue = simp (filter_map-snoc_none as_queued xs e q, h.queue);
  running = simp (filter_map-snoc_none as_started xs e n, h.running);
}

Tracks-queue :
    (xs : List SessionEvent) (s : Live) (e : InputQueued)
    → has s.started e.command_id ≡ false
    → has s.ended e.command_id ≡ false
    → Tracks xs s
    → Tracks (xs ++ input_queued e ∷ []) (advance s (input_queued e))
Tracks-queue xs s e a b h = record {
  started = simp (filter_map-append, append-nil, h.started);
  ended = simp (filter_map-append, append-nil, h.ended);
  queue = simp (filter_map-append, filter-append, h.queue, a, b);
  running = simp (filter_map-append, append-nil, h.running);
}

Tracks-start :
    (xs : List SessionEvent) (s : Live) (t : TurnStarted)
    → s.running ≡ none
    → has s.ended t.turn_id ≡ false
    → Tracks xs s
    → Tracks (xs ++ turn_started t ∷ []) (advance s (turn_started t))
Tracks-start xs s t a b h = record {
  started = simp (filter_map-append, map-append, h.started);
  ended = simp (filter_map-append, append-nil, h.ended);
  queue = simp (filter_map-append, append-nil, filter-waits_started, h.queue);
  running = simp (filter_map-append, filter-append, h.running, a, b);
}

Tracks-advance :
    (xs : List SessionEvent) (s : Live) (e : SessionEvent)
    → Tracks xs s
    → Allowed s e
    → Tracks (xs ++ e ∷ []) (advance s e)
Tracks-advance xs s (input_queued e) h a = Tracks-queue xs s e a.0 a.1 h
Tracks-advance xs s (turn_started t) h a = Tracks-start xs s t a.0 a.1 h
Tracks-advance xs s (turn_completed e) h a = Tracks-end xs s _ e.turn_id refl refl refl h
Tracks-advance xs s (turn_failed e) h a = Tracks-end xs s _ e.turn_id refl refl refl h
Tracks-advance xs s (turn_cancelled e) h a = Tracks-end xs s _ e.turn_id refl refl refl h
Tracks-advance xs s (turn_interrupted e) h a = Tracks-end xs s _ e.turn_id refl refl refl h
Tracks-advance xs s e h a = Tracks-skip xs s e refl refl refl h

Tracks-run :
    (es xs : List SessionEvent) (s : Live)
    → Tracks xs s
    → IsJournal s es
    → Tracks (xs ++ es) (run s es)
Tracks-run [] xs s h j = rw append-nil h
Tracks-run (e ∷ es) xs s h j =
    rw (append_assoc xs (e ∷ []) es) at
      (Tracks-run es (xs ++ e ∷ []) (advance s e) (Tracks-advance xs s e h j.0) j.1)

last-to_list {ℓ} : {A : Type ℓ} (o : Option A) → last? (to_list o) ≡ o
last-to_list none = refl
last-to_list (some a) = refl

-- For a journal in which every command is queued under a new id and a turn starts only when none
-- runs, under an id that has not ended, `reduce_journal` finds exactly the queue of the commands
-- that wait, in order, and the turn that runs, of the machine that handles the events one by one.
pub reduce_journal-run :
    (events : List SessionEvent)
    → IsJournal idle events
    → ((reduce_journal events).pending ≡ (run idle events).queue)
      × ((reduce_journal events).incomplete ≡ (run idle events).running)
unfolding reduce_journal
reduce_journal-run events j =
    let h : Tracks events (run idle events) =
      Tracks-run events [] idle
        (record { started = refl; ended = refl; queue = refl; running = refl }) j in
    (simp (h.started, h.ended, h.queue), simp (h.ended, h.running, last-to_list))

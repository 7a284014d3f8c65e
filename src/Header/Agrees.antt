-- ===== src/Header/Agrees.antt =====
-- The header, which is folded event by event, agrees with the machine of Journal/Machine.antt.
use tantra.Prelude.{
  ℕ, String, ◌≡◌, ◌≢◌, refl, ◌⊎◌, inl, inr, Option, none, some, List, [], ◌∷◌, arith, All, true,
  false, Bool, ◌||◌, sym, ap, ◌∙◌, find_last, filter, last?, is_some,
}
use tantra.Prelude.Outcome.{Error, Outcome-cases, ok, raise}
use tantra.Events.{
  SessionEvent, SessionHeader, TurnStarted, agent_finished, input_queued, turn_started,
  turn_completed, turn_failed, turn_cancelled, turn_interrupted,
}
use tantra.Header.{apply_event, apply_events, reduce_header}
use tantra.Journal.{reduce_journal, terminal_id, as_started}
use tantra.Journal.Machine.{Live, idle, advance, run, IsJournal}
use tantra.Journal.Refines.{reduce_journal-run}

abbrev pub turn_of : Option TurnStarted → Option String
turn_of none = none
turn_of (some t) = some t.turn_id

-- The header shows no turn, or the one that runs.
abbrev pub Shows : SessionHeader → Live → Type 0
Shows h s = (h.current_turn_id ≡ none) ⊎ (h.current_turn_id ≡ turn_of s.running)

abbrev pub is_finish : SessionEvent → Bool
is_finish (agent_finished _) = true
is_finish _ = false

-- the event starts or ends a turn, or ends the agent
abbrev pub marks_turn : SessionEvent → Bool
marks_turn e = is_some (as_started e) || is_some (terminal_id e) || is_finish e

abbrev pub started_id : SessionEvent → Option String
started_id e = turn_of (as_started e)

-- the turn that the last of these events starts
abbrev pub last_marked : List SessionEvent → Option String
last_marked events = elim (find_last marks_turn events) [ none ↦ none | some e ↦ started_id e ]

last_or :
    (c : Option String) (e : SessionEvent) (l : List SessionEvent)
    → (elim (last? (e ∷ l)) [ none ↦ c | some d ↦ started_id d ])
      ≡ (elim (last? l) [ none ↦ started_id e | some d ↦ started_id d ])
last_or c e [] = refl
last_or c e (x ∷ []) = refl
last_or c e (x ∷ y ∷ l) = last_or c x (y ∷ l) ∙ sym (last_or (started_id e) x (y ∷ l))

module _ (uuid : String → Option String) where
  apply_event-Shows :
      (h : SessionHeader) (s : Live) (e : SessionEvent) {h' : SessionHeader}
      → Shows h s
      → apply_event uuid h e ≡ ok h'
      → Shows h' (advance s e)
  unfolding apply_event
  apply_event-Shows h s (input_queued e) w p = ground arith
  apply_event-Shows h s (turn_started e) w p = ground arith
  apply_event-Shows h s (turn_completed e) w p = ground arith
  apply_event-Shows h s (turn_failed e) w p = ground arith
  apply_event-Shows h s (turn_cancelled e) w p = ground arith
  apply_event-Shows h s (turn_interrupted e) w p = ground arith
  apply_event-Shows h s _ w p = ground arith

  apply_events-Shows :
      (h : SessionHeader) (s : Live) (es : List SessionEvent) (h' : SessionHeader)
      → Shows h s
      → apply_events uuid h es ≡ ok h'
      → Shows h' (run s es)
  unfolding apply_events
  apply_events-Shows h s [] h' w p = ground arith
  apply_events-Shows h s (e ∷ es) h' w p = elim (Outcome-cases (apply_event uuid h e)) [
    | inl (h1, q) ↦
        apply_events-Shows h1 (advance s e) es h' (apply_event-Shows h s e w q) (ground arith)
    | inr (x, q) ↦ absurd (ground arith)
  ]

  -- what the header shows after `es`, from the turn that it showed before
  abbrev shown_after : Option String → List SessionEvent → Option String
  shown_after c es = elim (find_last marks_turn es) [ none ↦ c | some e ↦ started_id e ]

  shown_after-skip :
      (c : Option String) (e : SessionEvent) (es : List SessionEvent)
      → marks_turn e ≡ false
      → shown_after c (e ∷ es) ≡ shown_after c es
  shown_after-skip c e es p = rw (p, shown_after) refl

  shown_after-mark :
      (c : Option String) (e : SessionEvent) (es : List SessionEvent)
      → marks_turn e ≡ true
      → shown_after c (e ∷ es) ≡ shown_after (started_id e) es
  shown_after-mark c e es p = rw (p, shown_after) (last_or c e (filter marks_turn es))

  apply_event-shown :
      (h : SessionHeader) (e : SessionEvent) (es : List SessionEvent) (h' : SessionHeader)
      → apply_event uuid h e ≡ ok h'
      → shown_after h.current_turn_id (e ∷ es) ≡ shown_after h'.current_turn_id es
  unfolding apply_event
  apply_event-shown h (input_queued e) es h' p =
      ground (arith, shown_after-skip h.current_turn_id (input_queued e) es refl)
  apply_event-shown h (turn_started e) es h' p =
      ground (arith, shown_after-mark h.current_turn_id (turn_started e) es refl)
  apply_event-shown h (turn_completed e) es h' p =
      ground (arith, shown_after-mark h.current_turn_id (turn_completed e) es refl)
  apply_event-shown h (turn_failed e) es h' p =
      ground (arith, shown_after-mark h.current_turn_id (turn_failed e) es refl)
  apply_event-shown h (turn_cancelled e) es h' p =
      ground (arith, shown_after-mark h.current_turn_id (turn_cancelled e) es refl)
  apply_event-shown h (turn_interrupted e) es h' p =
      ground (arith, shown_after-mark h.current_turn_id (turn_interrupted e) es refl)
  apply_event-shown h (agent_finished e) es h' p =
      ground (arith, shown_after-mark h.current_turn_id (agent_finished e) es refl)
  apply_event-shown h e es h' p = ground (arith, shown_after-skip h.current_turn_id e es refl)

  apply_events-shown :
      (h : SessionHeader) (es : List SessionEvent) (h' : SessionHeader)
      → apply_events uuid h es ≡ ok h'
      → h'.current_turn_id ≡ shown_after h.current_turn_id es
  unfolding apply_events
  apply_events-shown h [] h' p = ground arith
  apply_events-shown h (e ∷ es) h' p = elim (Outcome-cases (apply_event uuid h e)) [
    | inl (h1, q) ↦ apply_events-shown h1 es h' (ground arith) ∙ sym (apply_event-shown h e es h1 q)
    | inr (x, q) ↦ absurd (ground arith)
  ]

  -- `reduce_header` folds a whole journal, with commands queued under new ids and turns started only
  -- when none runs, into a header without a current turn. The header it returns names the turn that
  -- the last event starts, of those that start or end a turn or end the agent, and none where that
  -- event ends it or there is none; and a turn that it names is the one that `reduce_journal` finds
  -- incomplete.
  pub reduce_header-reduce_journal :
      (now : ℕ) (h : SessionHeader) (events : List SessionEvent) {h' : SessionHeader}
      → h.current_turn_id ≡ none
      → IsJournal idle events
      → reduce_header uuid now h events ≡ ok h'
      → (h'.current_turn_id ≡ last_marked events)
        × ((h'.current_turn_id ≡ none)
            ⊎ (h'.current_turn_id ≡ turn_of (reduce_journal events).incomplete))
  unfolding reduce_header
  reduce_header-reduce_journal now h events {h'} c j p =
      elim (Outcome-cases (apply_events uuid h events)) [
        | inl (h1, q) ↦
            let x : h1.current_turn_id ≡ shown_after h.current_turn_id events =
              apply_events-shown h events h1 q in
            let y : h'.current_turn_id ≡ h1.current_turn_id = ground arith in
            (
              y
                  ∙ x
                  ∙ ap
                      (λ z. elim (find_last marks_turn events) [ none ↦ z | some e ↦ started_id e ])
                      c,
              ground (
                arith,
                apply_events-Shows h idle events h1 (inl c) q,
                (reduce_journal-run events j).1,
              ),
            )
        | inr (x, q) ↦ absurd (ground arith)
      ]

  -- A terminal event's id is a UUID.
  abbrev pub HasUuid : SessionEvent → Type 0
  HasUuid e = elim (terminal_id e) [ none ↦ Unit | some id ↦ is_some (uuid id) ≡ true ]

  apply_event-ne-raise :
      (h : SessionHeader) (e : SessionEvent) (x : Error)
      → HasUuid e
      → apply_event uuid h e ≢ raise x
  unfolding apply_event
  apply_event-ne-raise h (turn_completed e) x w = ground arith
  apply_event-ne-raise h (turn_failed e) x w = ground arith
  apply_event-ne-raise h (turn_cancelled e) x w = ground arith
  apply_event-ne-raise h (turn_interrupted e) x w = ground arith
  apply_event-ne-raise h _ x w = ground arith

  apply_event-ok :
      (h : SessionHeader) (e : SessionEvent)
      → HasUuid e
      → (h' : SessionHeader) × (apply_event uuid h e ≡ ok h')
  apply_event-ok h e w = elim (Outcome-cases (apply_event uuid h e)) [
    | inl r ↦ r
    | inr (x, q) ↦ absurd (apply_event-ne-raise h e x w q)
  ]

  apply_events-ok :
      (h : SessionHeader) (es : List SessionEvent)
      → All HasUuid es
      → (h' : SessionHeader) × (apply_events uuid h es ≡ ok h')
  unfolding apply_events
  apply_events-ok h [] w = (h, refl)
  apply_events-ok h (e ∷ es) w =
      let (h1, q) = apply_event-ok h e w.0 in
      let (h2, r) = apply_events-ok h1 es w.1 in (h2, ground arith)

  -- `reduce_header` raises nothing where the terminal events' ids are UUIDs.
  pub reduce_header-ok :
      (now : ℕ) (h : SessionHeader) (es : List SessionEvent)
      → All HasUuid es
      → (h' : SessionHeader) × (reduce_header uuid now h es ≡ ok h')
  unfolding reduce_header
  reduce_header-ok now h es w =
      let (h1, q) = apply_events-ok h es w in (record h1 { updated_at = now }, ground arith)

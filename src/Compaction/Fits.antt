-- ===== src/Compaction/Fits.antt =====
-- What a compaction promises for the next request.
use tantra.Prelude.{
  ℕ, zero, suc, ◌+◌, String, ◌≡◌, refl, sym, ap, ◌∙◌, false, inl, inr, Option, none, some, List, [],
  ◌∷◌, ◌++◌, arith, any, append_assoc, drop, drop-drop, take, filter, length, Option-cases, eq_iff,
  eq_refl,
}
use tantra.Prelude.Int.{ℤ, pos, leb_ℤ}
use tantra.Prelude.Outcome.{Outcome, ok, Outcome-cases}
use tantra.Events.{
  SessionEvent, TurnStarted, ToolCallCompleted, CompactionApplied, turn_started, compaction_applied,
}
use tantra.Messages.{Message, SampleRequest, ProviderEvent}
use tantra.Context.{last_applied, find_turn, floor_of, compaction_window}
use tantra.Context.Replay.{requests, assemble_messages-filter}
use tantra.Compaction.Estimate.{Codec, projected, rough, rough_messages, estimate_request_tokens}
use tantra.Compaction.Compact.{
  CompactionConfig, CompactionTurn, as_events, brief, summarize, strategy, first_turn,
}

-- no two turns of the journal have one id
abbrev pub DistinctTurns : List SessionEvent → Type 0
DistinctTurns [] = Unit
DistinctTurns (turn_started t ∷ es) = (find_turn t.turn_id es ≡ none) × DistinctTurns es
DistinctTurns (_ ∷ es) = DistinctTurns es

-- The last event is the last compaction.
last_applied-append :
    (xs : List SessionEvent) (a : CompactionApplied)
    → last_applied (xs ++ compaction_applied a ∷ []) ≡ some (length xs, a)
unfolding last_applied
last_applied-append [] a = refl
last_applied-append (x ∷ xs) a = ground (arith, last_applied-append xs a)

find_turn-append :
    (id : String) (xs ys : List SessionEvent) (k : ℕ)
    → find_turn id xs ≡ some k
    → find_turn id (xs ++ ys) ≡ some k
unfolding find_turn
find_turn-append id [] ys k h = absurd (ground arith)
find_turn-append id (x ∷ xs) ys k h = elim (Option-cases (find_turn id xs)) [
  | inl p ↦ ground arith
  | inr (j, p) ↦ ground (arith, find_turn-append id xs ys j p)
]

-- With distinct ids, a turn is found where it stands.
find_turn-drop_self :
    (xs ys : List SessionEvent) (k : ℕ) (t : TurnStarted)
    → DistinctTurns xs
    → drop k xs ≡ turn_started t ∷ ys
    → find_turn t.turn_id xs ≡ some k
unfolding find_turn
find_turn-drop_self [] ys zero t d h = absurd (ground arith)
find_turn-drop_self [] ys (suc k) t d h = absurd (ground arith)
find_turn-drop_self (x ∷ xs) ys zero t d h = ground (arith, eq_refl t.turn_id)
find_turn-drop_self (turn_started u ∷ xs) ys (suc k) t d h =
    ground (arith, find_turn-drop_self xs ys k t d.1 h, eq_iff u.turn_id t.turn_id)
find_turn-drop_self (x ∷ xs) ys (suc k) t d h = ground (arith, find_turn-drop_self xs ys k t d h)

drop-append_cons {ℓ} :
    {A : Type ℓ} (k : ℕ) (xs ys zs : List A) (y : A)
    → drop k xs ≡ y ∷ ys
    → drop k (xs ++ zs) ≡ y ∷ (ys ++ zs)
drop-append_cons zero [] ys zs y h = absurd (ground arith)
drop-append_cons (suc k) [] ys zs y h = absurd (ground arith)
drop-append_cons zero (x ∷ xs) ys zs y h = ground arith
drop-append_cons (suc k) (x ∷ xs) ys zs y h = drop-append_cons k xs ys zs y h

-- A window is the journal from some event on.
window-drop :
    (events : List SessionEvent) {summary : String} {window : List SessionEvent}
    → compaction_window events ≡ (summary, window)
    → (f : ℕ) × (window ≡ drop f events)
unfolding compaction_window
window-drop events {window = window} h = elim (Option-cases (last_applied events)) [
  | inl p ↦ (0, ground arith)
  | inr ((l, a), p) ↦ (floor_of l a events, ground arith)
]

-- Once a compaction is written behind a journal with distinct turns, the window begins at its turn.
compaction_window-append :
    (history done : List SessionEvent) (k : ℕ) (t : TurnStarted) (ys : List SessionEvent)
    (a : CompactionApplied)
    → DistinctTurns history
    → drop k history ≡ turn_started t ∷ ys
    → a.floor_turn_id ≡ some t.turn_id
    → compaction_window (history ++ (done ++ compaction_applied a ∷ []))
      ≡ (a.summary, (turn_started t ∷ ys) ++ (done ++ compaction_applied a ∷ []))
unfolding compaction_window
compaction_window-append history done k t ys a d h w =
    let events : List SessionEvent = done ++ compaction_applied a ∷ [] in
    let joined : history ++ events ≡ (history ++ done) ++ compaction_applied a ∷ [] =
      sym (append_assoc history done (compaction_applied a ∷ [])) in
    let last : last_applied (history ++ events) ≡ some (length (history ++ done), a) =
      ap last_applied joined ∙ last_applied-append (history ++ done) a in
    let found : find_turn t.turn_id (history ++ events) ≡ some k =
      find_turn-append t.turn_id history events k (find_turn-drop_self history ys k t d h) in
    let dropped : drop k (history ++ events) ≡ turn_started t ∷ (ys ++ events) =
      drop-append_cons k history ys events (turn_started t) h in
    ground arith

module _ (codec : Codec) (config : CompactionConfig) (own_model : Option String)
    (instruction : String) (stream : SampleRequest → Outcome (List ProviderEvent))
    (turn : CompactionTurn) where
  -- What `summarize` returns, where it returns.
  record Summarized (trigger : ℤ) (window : List SessionEvent) (stubs : List ToolCallCompleted)
      (boundary : ℕ) (events : List SessionEvent) : Type 0 where
    applied : CompactionApplied
    floor : applied.floor_turn_id ≡ first_turn (drop boundary window)
    room :
        leb_ℤ trigger (
          pos (
            projected codec turn.sample_request applied.summary
              (drop boundary window ++ as_events stubs)))
        ≡ false
    written :
        events
        ≡ as_events (filter (λ r. any (requests r.call_id) (drop boundary window)) stubs)
          ++ compaction_applied applied ∷ []

  summarize-Summarized :
      (trigger : ℤ) (before : ℕ) (summary : String) (window : List SessionEvent)
      (stubs : List ToolCallCompleted) (boundary : ℕ) (events : List SessionEvent)
      → summarize codec config own_model instruction stream turn trigger before summary window stubs
          boundary
        ≡ ok events
      → Summarized trigger window stubs boundary events
  unfolding summarize
  summarize-Summarized trigger before summary window stubs boundary events h =
      elim (Option-cases (first_turn (drop boundary window))) [
        | inl p ↦ absurd (ground arith)
        | inr (id, p) ↦
            elim (Outcome-cases (
              brief codec config own_model instruction stream turn summary
                (take boundary window ++ as_events stubs))) [
                  | inr (x, q) ↦ absurd (ground arith)
                  | inl (text, q) ↦ record {
                    applied = record {
                      strategy = strategy;
                      tokens_before = before;
                      tokens_after =
                          projected codec turn.sample_request text
                            (drop boundary window ++ as_events stubs);
                      summary = text;
                      floor_turn_id = some id;
                    };
                    floor = ground arith;
                    room = ground arith;
                    written = ground arith;
                  }
                ]
      ]

  projected-filter :
      (summary : String) (kept : List SessionEvent) (stubs : List ToolCallCompleted)
      (a : CompactionApplied)
      → projected codec turn.sample_request summary (
          kept
          ++ (as_events (filter (λ r. any (requests r.call_id) kept) stubs)
              ++ compaction_applied a ∷ []))
        ≡ projected codec turn.sample_request summary (kept ++ as_events stubs)
  unfolding projected rough
  projected-filter summary kept stubs a = elim (Option-cases turn.sample_request) [
    | inl p ↦
        rw (p, projected)
          (ap (rough_messages codec) (assemble_messages-filter codec.dumps summary kept stubs a))
    | inr (request, p) ↦
        rw (p, projected)
          (ap
            (λ (l : List Message). estimate_request_tokens codec (record request { messages = l }))
            (assemble_messages-filter codec.dumps summary kept stubs a))
  ]

  -- When `_compact` summarises a window up to the start of a turn and returns events, then behind
  -- the journal, whose turns have distinct ids, these events leave a window whose next request is
  -- estimated below the trigger.
  pub summarize_fits :
      (trigger : ℤ) (before : ℕ) (summary : String) (window : List SessionEvent)
      (stubs : List ToolCallCompleted) (boundary : ℕ) (events : List SessionEvent) (t : TurnStarted)
      (ys : List SessionEvent)
      → DistinctTurns turn.history
      → compaction_window turn.history ≡ (summary, window)
      → drop boundary window ≡ turn_started t ∷ ys
      → summarize codec config own_model instruction stream turn trigger before summary window stubs
          boundary
        ≡ ok events
      → let (summary', window') = compaction_window (turn.history ++ events) in
        leb_ℤ trigger (pos (projected codec turn.sample_request summary' window')) ≡ false
  summarize_fits trigger before summary window stubs boundary events t ys d c b h =
      let s : Summarized trigger window stubs boundary events =
        summarize-Summarized trigger before summary window stubs boundary events h in
      let (f, w) = window-drop turn.history c in
      let kept : List SessionEvent = turn_started t ∷ ys in
      let stood : drop (f + boundary) turn.history ≡ kept =
        sym (drop-drop boundary f turn.history) ∙ ap (drop boundary) (sym w) ∙ b in
      let done : List SessionEvent =
        as_events (filter (λ r. any (requests r.call_id) kept) stubs) in
      let written : events ≡ done ++ compaction_applied s.applied ∷ [] =
        s.written
        ∙ ap
            (λ (l : List SessionEvent).
              as_events (filter (λ r. any (requests r.call_id) l) stubs)
              ++ compaction_applied s.applied ∷ [])
            b in
      let after : compaction_window (turn.history ++ events)
          ≡ (s.applied.summary, kept ++ (done ++ compaction_applied s.applied ∷ [])) =
        ap (λ (l : List SessionEvent). compaction_window (turn.history ++ l)) written
        ∙ compaction_window-append turn.history done (f + boundary) t ys s.applied d stood
            (s.floor ∙ ap first_turn b) in
      let size : String × List SessionEvent → ℕ =
        λ p. projected codec turn.sample_request p.0 p.1 in
      let same : size (compaction_window (turn.history ++ events))
          ≡ projected codec turn.sample_request s.applied.summary
              (drop boundary window ++ as_events stubs) =
        ap size after
        ∙ projected-filter s.applied.summary kept stubs s.applied
        ∙ ap
            (λ (l : List SessionEvent).
              projected codec turn.sample_request s.applied.summary (l ++ as_events stubs))
            (sym b) in
      ap (λ (n : ℕ). leb_ℤ trigger (pos n)) same ∙ s.room

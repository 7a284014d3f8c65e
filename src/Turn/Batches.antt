-- ===== src/Turn/Batches.antt =====
-- Batches of deltas say what the deltas say.
use tantra.Prelude.{
  ℕ, ◌+◌, ◌≡◌, refl, ap, sym, ◌∙◌, Bool, true, false, ◌||◌, ◌⊎◌, inl, inr, List, [], ◌∷◌, ◌++◌, map,
  append_assoc, append-nil, map-append, length, leb, ltb, Bool-cases,
}
use tantra.Events.{SessionEvent}
use tantra.Messages.{ProviderEvent, StreamEnd}
use tantra.Turn.Stream.{
  Moment, timeout, arrives, Yielded, batch, ended, Buffer, as_end, flush, no_events, make_room,
  store, meet, stream_events, delta_batch_count, delta_batch_bytes,
}

abbrev pub Said : Type 0
Said = SessionEvent ⊎ StreamEnd

-- what is yielded, one by one
abbrev pub unpack_one : Yielded → List Said
unpack_one (batch events) = map inl events
unpack_one (ended end) = inr end ∷ []

abbrev pub unpack : List Yielded → List Said
unpack [] = []
unpack (y ∷ ys) = unpack_one y ++ unpack ys

-- what the provider sent
abbrev pub said_by : ProviderEvent → List Said
said_by (ProviderEvent.text_delta e) = inl (SessionEvent.text_delta e) ∷ []
said_by (ProviderEvent.reasoning_delta e) = inl (SessionEvent.reasoning_delta e) ∷ []
said_by (ProviderEvent.tool_call_delta e) = inl (SessionEvent.tool_call_delta e) ∷ []
said_by (ProviderEvent.tool_call e) = []
said_by (ProviderEvent.stream_end e) = inr e ∷ []

abbrev pub said : List Moment → List Said
said [] = []
said (timeout ∷ ms) = said ms
said (arrives e due ∷ ms) = said_by e ++ said ms

unpack-append : (xs ys : List Yielded) → unpack (xs ++ ys) ≡ unpack xs ++ unpack ys
unpack-append [] ys = refl
unpack-append (x ∷ xs) ys =
    rw (unpack-append xs ys) (sym (append_assoc (unpack_one x) (unpack xs) (unpack ys)))

unpack-flush : (events : List SessionEvent) → unpack (flush events) ≡ map inl events
unpack-flush [] = refl
unpack-flush (e ∷ es) = append-nil (map inl (e ∷ es))

module _ (size_of : SessionEvent → ℕ) where
  -- what the buffer holds is still to be said
  abbrev held : List Yielded × Buffer → List Said
  held (out, b) = unpack out ++ map inl b.events

  held-flush : (events : List SessionEvent) → held (flush events, no_events) ≡ map inl events
  held-flush events = append-nil (unpack (flush events)) ∙ unpack-flush events

  held-make_room :
      (delta : SessionEvent) (due : Bool) (b : Buffer)
      → held (make_room true size_of delta due b) ≡ map inl b.events
  held-make_room delta due b =
      elim (Bool-cases (ltb delta_batch_bytes (b.size + size_of delta) || due)) [
        | inl p ↦ rw p (held-flush b.events)
        | inr p ↦ rw p refl
      ]

  held-store :
      (delta : SessionEvent) (b : Buffer)
      → held (store true size_of delta b) ≡ map inl b.events ++ inl delta ∷ []
  held-store delta b =
      elim (Bool-cases (
        leb delta_batch_count (length (b.events ++ delta ∷ []))
        || leb delta_batch_bytes (b.size + size_of delta))) [
          | inl p ↦
              rw p (held-flush (b.events ++ delta ∷ []) ∙ map-append inl b.events (delta ∷ []))
          | inr p ↦ rw p (map-append inl b.events (delta ∷ []))
        ]

  held-stored :
      (delta : SessionEvent) (before : List Yielded) (room : Buffer)
      → held (before ++ (store true size_of delta room).0, (store true size_of delta room).1)
        ≡ held (before, room) ++ inl delta ∷ []
  held-stored delta before room =
      let (after, kept) = store true size_of delta room in
      ap (λ (l : List Said). l ++ map inl kept.events) (unpack-append before after)
      ∙ append_assoc (unpack before) (unpack after) (map inl kept.events)
      ∙ ap (λ (l : List Said). unpack before ++ l) (held-store delta room)
      ∙ sym (append_assoc (unpack before) (map inl room.events) (inl delta ∷ []))

  held-delta :
      (delta : SessionEvent) (due : Bool) (b : Buffer)
      → held (
          let (before, room) = make_room true size_of delta due b in
          let (after, kept) = store true size_of delta room in (before ++ after, kept))
        ≡ map inl b.events ++ inl delta ∷ []
  held-delta delta due b =
      let (before, room) = make_room true size_of delta due b in
      held-stored delta before room
      ∙ ap (λ (l : List Said). l ++ inl delta ∷ []) (held-make_room delta due b)

  abbrev said_at : Moment → List Said
  said_at timeout = []
  said_at (arrives e due) = said_by e

  held-ended :
      (events : List SessionEvent) (e : ProviderEvent)
      → unpack (as_end e) ≡ said_by e
      → held (flush events ++ as_end e, no_events) ≡ map inl events ++ said_by e
  held-ended events e h =
      append-nil (unpack (flush events ++ as_end e))
      ∙ unpack-append (flush events) (as_end e)
      ∙ ap (λ (l : List Said). l ++ unpack (as_end e)) (unpack-flush events)
      ∙ ap (λ (l : List Said). map inl events ++ l) h

  held-meet :
      (m : Moment) (b : Buffer) → held (meet true size_of m b) ≡ map inl b.events ++ said_at m
  held-meet timeout b = held-flush b.events ∙ sym (append-nil (map inl b.events))
  held-meet (arrives (ProviderEvent.text_delta e) due) b = held-delta _ due b
  held-meet (arrives (ProviderEvent.reasoning_delta e) due) b = held-delta _ due b
  held-meet (arrives (ProviderEvent.tool_call_delta e) due) b = held-delta _ due b
  held-meet (arrives (ProviderEvent.tool_call e) due) b =
      held-ended b.events (ProviderEvent.tool_call e) refl
  held-meet (arrives (ProviderEvent.stream_end e) due) b =
      held-ended b.events (ProviderEvent.stream_end e) refl

  said-cons : (m : Moment) (ms : List Moment) → said (m ∷ ms) ≡ said_at m ++ said ms
  said-cons timeout ms = refl
  said-cons (arrives e due) ms = refl

  unpack-batched :
      (ms : List Moment) (b : Buffer)
      → unpack (stream_events true size_of ms b) ≡ map inl b.events ++ said ms
  unfolding stream_events
  unpack-batched [] b = unpack-flush b.events ∙ sym (append-nil (map inl b.events))
  unpack-batched (m ∷ ms) b =
      let (out, kept) = meet true size_of m b in
      unpack-append out (stream_events true size_of ms kept)
      ∙ ap (λ (l : List Said). unpack out ++ l) (unpack-batched ms kept)
      ∙ sym (append_assoc (unpack out) (map inl kept.events) (said ms))
      ∙ ap (λ (l : List Said). l ++ said ms) (held-meet m b)
      ∙ append_assoc (map inl b.events) (said_at m) (said ms)
      ∙ ap (λ (l : List Said). map inl b.events ++ l) (sym (said-cons m ms))

  unpack-single : (ms : List Moment) → unpack (stream_events false size_of ms no_events) ≡ said ms
  unfolding stream_events
  unpack-single [] = refl
  unpack-single (timeout ∷ ms) = unpack-single ms
  unpack-single (arrives (ProviderEvent.text_delta e) due ∷ ms) =
      ap (λ (l : List Said). inl (SessionEvent.text_delta e) ∷ l) (unpack-single ms)
  unpack-single (arrives (ProviderEvent.reasoning_delta e) due ∷ ms) =
      ap (λ (l : List Said). inl (SessionEvent.reasoning_delta e) ∷ l) (unpack-single ms)
  unpack-single (arrives (ProviderEvent.tool_call_delta e) due ∷ ms) =
      ap (λ (l : List Said). inl (SessionEvent.tool_call_delta e) ∷ l) (unpack-single ms)
  unpack-single (arrives (ProviderEvent.tool_call e) due ∷ ms) = unpack-single ms
  unpack-single (arrives (ProviderEvent.stream_end e) due ∷ ms) =
      ap (λ (l : List Said). inr e ∷ l) (unpack-single ms)

  -- However the deltas of a sample are batched, wherever deadlines fall, what is written is what the
  -- provider sent, in its order, with the end of the sample where it came.
  pub unpack-stream_events :
      (batches : Bool) (ms : List Moment)
      → unpack (stream_events batches size_of ms no_events) ≡ said ms
  unpack-stream_events true ms = unpack-batched ms no_events
  unpack-stream_events false ms = unpack-single ms

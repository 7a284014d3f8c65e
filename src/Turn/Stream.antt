-- ===== src/Turn/Stream.antt =====
-- `_stream_events`: the deltas of a sample are written one by one, or in batches that are closed by a
-- deadline, by their number or by their size, and before the end of the sample.
use tantra.Prelude.{
  ℕ, ◌+◌, Bool, ◌||◌, not, Option, none, some, List, [], ◌∷◌, ◌++◌, length, leb, ltb, if◌then◌else◌,
}
use tantra.Events.{SessionEvent, text_delta, reasoning_delta, tool_call_delta}
use tantra.Messages.{ProviderEvent, StreamEnd}

abbrev pub delta_batch_count : ℕ
delta_batch_count = 32

abbrev pub delta_batch_bytes : ℕ
delta_batch_bytes = 65536

-- What the engine meets: the deadline of the batch passes while it waits, or an event arrives, by when
-- the deadline may have passed.
pub data Moment : Type 0 where
  timeout : Moment
  arrives : ProviderEvent → Bool → Moment

pub data Yielded : Type 0 where
  batch : List SessionEvent → Yielded
  ended : StreamEnd → Yielded

abbrev pub as_delta : ProviderEvent → Option SessionEvent
as_delta (ProviderEvent.text_delta e) = some (text_delta e)
as_delta (ProviderEvent.reasoning_delta e) = some (reasoning_delta e)
as_delta (ProviderEvent.tool_call_delta e) = some (tool_call_delta e)
as_delta _ = none

abbrev pub as_end : ProviderEvent → List Yielded
as_end (ProviderEvent.stream_end e) = ended e ∷ []
as_end _ = []

abbrev pub flush : List SessionEvent → List Yielded
flush [] = []
flush (e ∷ es) = batch (e ∷ es) ∷ []

-- the buffer and its size
pub record Buffer : Type 0 where
  pub events : List SessionEvent
  pub size : ℕ

abbrev pub no_events : Buffer
no_events = record { events = []; size = 0 }

-- `size_of` is the length of an event's JSON.
module _ (batches : Bool) (size_of : SessionEvent → ℕ) where
  -- what is flushed before a delta is stored
  abbrev pub make_room : SessionEvent → Bool → Buffer → List Yielded × Buffer
  make_room delta due b =
      if ltb delta_batch_bytes (b.size + size_of delta) || due
      then (flush b.events, no_events)
      else ([], b)

  abbrev pub store : SessionEvent → Buffer → List Yielded × Buffer
  store delta b =
      let kept : Buffer = record {
        events = b.events ++ delta ∷ [];
        size = b.size + size_of delta;
      } in
      if leb delta_batch_count (length kept.events) || leb delta_batch_bytes kept.size
      then (flush kept.events, no_events)
      else ([], kept)

  abbrev pub meet : Moment → Buffer → List Yielded × Buffer
  meet timeout b = (flush b.events, no_events)
  meet (arrives event due) b = elim (as_delta event) [
    | none ↦ (flush b.events ++ as_end event, no_events)
    | some delta ↦
        if not batches
        then (batch (delta ∷ []) ∷ [], b)
        else (let (before, room) = make_room delta due b in
            let (after, kept) = store delta room in (before ++ after, kept))
  ]

  -- Where the stream ends, also by an error of the provider, the buffer is written.
  unfoldable pub stream_events : List Moment → Buffer → List Yielded
  stream_events [] b = flush b.events
  stream_events (m ∷ ms) b = let (out, kept) = meet m b in out ++ stream_events ms kept

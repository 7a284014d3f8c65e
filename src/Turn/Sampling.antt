-- ===== src/Turn/Sampling.antt =====
-- `_sample`: a sample is tried again after errors that may pass, up to a number of failures, and once
-- after a compaction when its context was too long. Waiting between the tries is not modelled.
use tantra.Prelude.{
  ℕ, zero, suc, Bool, true, false, ◌||◌, not, Option, none, some, List, [], ◌∷◌, leb,
}
use tantra.Prelude.Outcome.{ok, provider_error, no_end}
use tantra.Prelude.Stateful.{◌>>=◌, pure, fail}
use tantra.Events.{SessionEvent}
use tantra.Messages.{SampleRequest, StreamEnd}
use tantra.Turn.{Act, Engine, ProviderError, RetryConfig, is_retryable, append}
use tantra.Turn.Stream.{Moment, Yielded, batch, ended, stream_events, no_events}

-- one answer of the provider, and the error that it ended with
pub record Streamed : Type 0 where
  pub moments : List Moment
  pub failure : Option ProviderError

abbrev pub no_stream_end : ProviderError
no_stream_end = record { status_code = none; retryable = none; context_overflow = false }

pub data Verdict : Type 0 where
  gives : StreamEnd → Verdict
  breaks : ProviderError → Verdict

abbrev pub verdict : Option ProviderError → Option StreamEnd → Verdict
verdict (some e) _ = breaks e
verdict none none = breaks no_stream_end
verdict none (some end) = gives end

-- one more request is sent
abbrev pub send : Act (Unit {0})
send engine = (ok tt, record engine { calls_made = suc engine.calls_made })

-- `recover` compacts and builds the request again.
module _ (compacts batches : Bool) (size_of : SessionEvent → ℕ) (retry : RetryConfig)
    (stream : Engine → SampleRequest → Streamed) (recover : Act (Option SampleRequest)) where
  -- the events that are written, the end, and whether anything was written
  abbrev pub write_all : List Yielded → Option StreamEnd → Bool → Act (Option StreamEnd × Bool)
  write_all [] end persisted = pure (end, persisted)
  write_all (batch events ∷ ys) end persisted =
      append compacts events >>= λ _. write_all ys end true
  write_all (ended e ∷ ys) end persisted = write_all ys (some e) persisted

  abbrev pub listen : SampleRequest → Engine → Bool → Act (Option StreamEnd × Bool)
  listen req engine persisted =
      write_all (stream_events batches size_of (stream engine req).moments no_events) none persisted

  -- the next tries, from the failures so far on
  abbrev pub Again : Type 0
  Again = ℕ → Bool → Bool → SampleRequest → Act StreamEnd

  abbrev pub resume : Again → ℕ → Bool → Option SampleRequest → Act StreamEnd
  resume again failures persisted none = fail provider_error
  resume again failures persisted (some replaced) = again failures true persisted replaced

  -- the context was too long
  abbrev pub on_overflow : Again → ℕ → Bool → Bool → Act StreamEnd
  on_overflow again failures persisted true = fail provider_error
  on_overflow again failures persisted false = recover >>= resume again failures persisted

  -- The Booleans say that the context was too long, and that there is no further try.
  abbrev pub on_break : Again → ℕ → Bool → Bool → SampleRequest → Bool → Bool → Act StreamEnd
  on_break again failures recovered persisted req true final =
      on_overflow again failures persisted (persisted || recovered)
  on_break again failures recovered persisted req false true = fail provider_error
  on_break again failures recovered persisted req false false =
      again (suc failures) recovered persisted req

  abbrev pub on_verdict : Again → ℕ → Bool → Bool → SampleRequest → Verdict → Act StreamEnd
  on_verdict again failures recovered persisted req (gives end) = pure end
  on_verdict again failures recovered persisted req (breaks exc) =
      on_break again failures recovered persisted req exc.context_overflow
        (leb retry.max_attempts (suc failures) || not (is_retryable exc))

  -- one request
  abbrev pub try_once : Again → ℕ → Bool → Bool → SampleRequest → Engine → Act StreamEnd
  try_once again failures recovered persisted req engine = listen req engine persisted >>= λ heard.
      on_verdict again failures recovered heard.1 req (verdict (stream engine req).failure heard.0)

  -- `failures`, `recovered` and `persisted` as in the source; the fuel is the tries that are left.
  unfoldable pub sample : ℕ → ℕ → Bool → Bool → SampleRequest → Act StreamEnd
  sample zero failures recovered persisted req = fail no_end
  sample (suc fuel) failures recovered persisted req =
      send >>= λ _. λ engine. try_once (sample fuel) failures recovered persisted req engine engine

  -- The first try, one for every failure but the last, and one after a compaction.
  unfoldable pub sample_once : SampleRequest → Act StreamEnd
  unfolding sample
  sample_once = sample (suc (suc retry.max_attempts)) 0 false false

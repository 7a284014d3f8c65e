-- ===== src/Turn/Asking.antt =====
-- Sampling writes no requests of calls.
use tantra.Prelude.{
  ℕ, zero, suc, ◌+◌, String, ◌≡◌, refl, ap, ◌∙◌, Bool, true, false, ◌||◌, not, Option, none, some,
  List, [], ◌∷◌, ◌++◌, arith, inl, inr, map, leb,
}
use tantra.Prelude.Outcome.{provider_error, no_end}
use tantra.Events.{SessionEvent}
use tantra.Messages.{ProviderEvent, StreamEnd, SampleRequest}
use tantra.Turn.{Act, Engine, RetryConfig, is_retryable, append}
use tantra.Turn.Counts.{requests, is_request, total}
use tantra.Turn.Owing.{
  Owing, Owing-bind, Owing-read, Owing-pure, Owing-fail, Owing-append, Owing-still,
}
use tantra.Turn.Stream.{Moment, timeout, arrives, Yielded, batch, ended, stream_events, no_events}
use tantra.Turn.Batches.{Said, unpack, said, unpack-stream_events}
use tantra.Turn.Sampling.{
  Streamed, Verdict, gives, breaks, verdict, send, write_all, listen, Again, resume, on_overflow,
  on_break, on_verdict, try_once, sample, sample_once,
}

module _ (id : String) where
  -- the requests among what is said
  asked : List Said → ℕ
  asked [] = 0
  asked (inl e ∷ l) = is_request id e + asked l
  asked (inr end ∷ l) = asked l

  asked-append : (xs ys : List Said) → asked (xs ++ ys) ≡ asked xs + asked ys
  unfolding asked
  asked-append [] ys = ground arith
  asked-append (inl e ∷ xs) ys = ground (arith, asked-append xs ys)
  asked-append (inr e ∷ xs) ys = asked-append xs ys

  asked-map : (es : List SessionEvent) → asked (map inl es) ≡ requests id es
  unfolding asked total
  asked-map [] = refl
  asked-map (e ∷ es) = ground (arith, asked-map es)

  asked-said : (ms : List Moment) → asked (said ms) ≡ 0
  unfolding asked
  asked-said [] = refl
  asked-said (timeout ∷ ms) = asked-said ms
  asked-said (arrives (ProviderEvent.text_delta e) due ∷ ms) = ground (arith, asked-said ms)
  asked-said (arrives (ProviderEvent.reasoning_delta e) due ∷ ms) = ground (arith, asked-said ms)
  asked-said (arrives (ProviderEvent.tool_call_delta e) due ∷ ms) = ground (arith, asked-said ms)
  asked-said (arrives (ProviderEvent.tool_call e) due ∷ ms) = asked-said ms
  asked-said (arrives (ProviderEvent.stream_end e) due ∷ ms) = asked-said ms

  module _ (compacts batches : Bool) (size_of : SessionEvent → ℕ) (retry : RetryConfig)
      (stream : Engine → SampleRequest → Streamed) (recover : Act (Option SampleRequest))
      (h : Owing id 0 (λ _. 0) recover) where
    write_all-Owing :
        (ys : List Yielded) (end : Option StreamEnd) (persisted : Bool)
        → asked (unpack ys) ≡ 0
        → Owing id 0
            (λ _. 0)
            (write_all compacts batches size_of retry stream recover ys end persisted)
    unfolding asked
    write_all-Owing [] end persisted p = Owing-pure id (λ _. 0) (end, persisted)
    write_all-Owing (batch es ∷ ys) end persisted p =
        let q = asked-append (map inl es) (unpack ys) in
        let r = asked-map es in
        Owing-bind id 0 (λ _. 0) (λ _. 0) (append compacts es)
          (λ _. write_all compacts batches size_of retry stream recover ys end true)
          (Owing-append id compacts es 0 0 (omega arith))
          (λ _. write_all-Owing ys end true (omega arith))
    write_all-Owing (ended e ∷ ys) end persisted p = write_all-Owing ys (some e) persisted p

    listen-Owing :
        (req : SampleRequest) (engine : Engine) (persisted : Bool)
        → Owing id 0
            (λ _. 0)
            (listen compacts batches size_of retry stream recover req engine persisted)
    listen-Owing req engine persisted =
        let ms = (stream engine req).moments in
        write_all-Owing (stream_events batches size_of ms no_events) none persisted
          (ap asked (unpack-stream_events size_of batches ms) ∙ asked-said ms)

    -- the further tries write none
    abbrev Quietly : Again compacts batches size_of retry stream recover → Type 0
    Quietly again =
        (failures : ℕ) (recovered persisted : Bool) (req : SampleRequest)
        → Owing id 0 (λ _. 0) (again failures recovered persisted req)

    resume-Owing :
        (again : Again compacts batches size_of retry stream recover) (failures : ℕ)
        (persisted : Bool) (replacement : Option SampleRequest)
        → Quietly again
        → Owing id 0
            (λ _. 0)
            (resume compacts batches size_of retry stream recover again failures persisted
              replacement)
    resume-Owing again failures persisted none k = Owing-fail id 0 (λ _. 0) provider_error
    resume-Owing again failures persisted (some replaced) k = k failures true persisted replaced

    on_overflow-Owing :
        (again : Again compacts batches size_of retry stream recover) (failures : ℕ)
        (persisted blocked : Bool)
        → Quietly again
        → Owing id 0
            (λ _. 0)
            (on_overflow compacts batches size_of retry stream recover again failures persisted
              blocked)
    on_overflow-Owing again failures persisted true k = Owing-fail id 0 (λ _. 0) provider_error
    on_overflow-Owing again failures persisted false k =
        Owing-bind id 0 (λ _. 0) (λ _. 0) recover
          (resume compacts batches size_of retry stream recover again failures persisted) h
          (λ replacement. resume-Owing again failures persisted replacement k)

    on_break-Owing :
        (again : Again compacts batches size_of retry stream recover) (failures : ℕ)
        (recovered persisted : Bool) (req : SampleRequest) (overflow final : Bool)
        → Quietly again
        → Owing id 0
            (λ _. 0)
            (on_break compacts batches size_of retry stream recover again failures recovered
              persisted req overflow final)
    on_break-Owing again failures recovered persisted req true final k =
        on_overflow-Owing again failures persisted (persisted || recovered) k
    on_break-Owing again failures recovered persisted req false true k =
        Owing-fail id 0 (λ _. 0) provider_error
    on_break-Owing again failures recovered persisted req false false k =
        k (suc failures) recovered persisted req

    on_verdict-Owing :
        (again : Again compacts batches size_of retry stream recover) (failures : ℕ)
        (recovered persisted : Bool) (req : SampleRequest) (v : Verdict)
        → Quietly again
        → Owing id 0
            (λ _. 0)
            (on_verdict compacts batches size_of retry stream recover again failures recovered
              persisted req v)
    on_verdict-Owing again failures recovered persisted req (gives end) k =
        Owing-pure id (λ _. 0) end
    on_verdict-Owing again failures recovered persisted req (breaks exc) k =
        on_break-Owing again failures recovered persisted req exc.context_overflow
          (leb retry.max_attempts (suc failures) || not (is_retryable exc)) k

    try_once-Owing :
        (again : Again compacts batches size_of retry stream recover) (failures : ℕ)
        (recovered persisted : Bool) (req : SampleRequest) (engine : Engine)
        → Quietly again
        → Owing id 0
            (λ _. 0)
            (try_once compacts batches size_of retry stream recover again failures recovered
              persisted req engine)
    try_once-Owing again failures recovered persisted req engine k =
        Owing-bind id 0 (λ _. 0) (λ _. 0)
          (listen compacts batches size_of retry stream recover req engine persisted)
          (λ heard.
            on_verdict compacts batches size_of retry stream recover again failures recovered
              heard.1 req (verdict (stream engine req).failure heard.0))
          (listen-Owing req engine persisted)
          (λ heard.
            on_verdict-Owing again failures recovered heard.1 req
              (verdict (stream engine req).failure heard.0) k)

    sample-Owing : (fuel : ℕ) → Quietly (sample compacts batches size_of retry stream recover fuel)
    unfolding sample
    sample-Owing zero failures recovered persisted req = Owing-fail id 0 (λ _. 0) no_end
    sample-Owing (suc fuel) failures recovered persisted req =
        Owing-bind id 0 (λ _. 0) (λ _. 0) send
          (λ _. λ engine.
            try_once compacts batches size_of retry stream recover
              (sample compacts batches size_of retry stream recover fuel) failures recovered
              persisted req engine engine)
          (Owing-still id 0 send (λ s. refl))
          (λ _.
            Owing-read id 0 (λ _. 0)
              (try_once compacts batches size_of retry stream recover
                (sample compacts batches size_of retry stream recover fuel) failures recovered
                persisted req)
              (λ engine.
                try_once-Owing (sample compacts batches size_of retry stream recover fuel) failures
                  recovered persisted req engine (sample-Owing fuel)))

    pub sample_once-Owing :
        (req : SampleRequest)
        → Owing id 0 (λ _. 0) (sample_once compacts batches size_of retry stream recover req)
    unfolding sample_once
    sample_once-Owing req = sample-Owing (suc (suc retry.max_attempts)) 0 false false req

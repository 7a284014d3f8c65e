-- ===== src/Turn/Quiet.antt =====
-- A sample leaves its calls owed, and compactions request none.
use tantra.Prelude.{
  ℕ, String, ◌≡◌, refl, ap, sym, subst, Bool, true, false, Option, none, some, List, [], ◌∷◌, arith,
}
use tantra.Prelude.Dict.{Dict}
use tantra.Prelude.Outcome.{Outcome, ok, raise}
use tantra.Prelude.Stateful.{◌>>=◌, pure, bind-inverse}
use tantra.Json.{Json}
use tantra.Events.{SessionEvent, sample_started}
use tantra.Messages.{StreamEnd, SampleRequest, ToolCall}
use tantra.Turn.{Act, Engine, append}
use tantra.Turn.Counts.{requests, total, owed_requests, requests-parts}
use tantra.Turn.Owing.{
  Owes, Owing, Owing-bind, Owing-read, Owing-pure, Owing-fail, Owing-append, Owing-still,
}
use tantra.Turn.Asking.{sample_once-Owing}
use tantra.Turn.Parts.{Request, parts, unique_calls}
use tantra.Turn.Setup.{Hook, Setup}
use tantra.Turn.Sampling.{sample_once}
use tantra.Turn.Drive.{
  Sampler, named, call_hooks, keep, resolve, build, write_compaction, Compactor, compact_with,
  compact, rebuild, recover_overflow, finish, keep_ids, take_ids, add_usage, write_parts,
  request_sample, with_prompt, take_sample,
}

-- the events that a compaction gives
abbrev pub given : Outcome (List SessionEvent) → List SessionEvent
given (ok events) = events
given (raise e) = []

-- compactions request no calls
abbrev pub IsQuiet :
    String → Option (Engine → SampleRequest → Bool → Outcome (List SessionEvent)) → Type 0
IsQuiet id none = Unit {0}
IsQuiet id (some compactor) =
    (engine : Engine) (req : SampleRequest) (forced : Bool)
    → requests id (given (compactor engine req forced)) ≡ 0

module _ (setup : Setup) (sampler : Sampler) (turn_id id : String)
    (quiet : IsQuiet id sampler.compactor) where
  abbrev pub Keeps : {A : Type 0} → Act A → Type 0
  Keeps = Owing id 0 (λ _. 0)

  -- one event that is no request
  pub append-Keeps :
      (e : SessionEvent) → requests id (e ∷ []) ≡ 0 → Keeps (append setup.compacts (e ∷ []))
  append-Keeps e p = Owing-append id setup.compacts (e ∷ []) 0 0 (omega arith)

  resolve-Keeps : {A : Type 0} (f : Engine → Outcome A) → Keeps (resolve setup sampler turn_id f)
  resolve-Keeps f = Owing-still id 0 (resolve setup sampler turn_id f) (λ s. refl)

  pub call_hooks-Keeps :
      (f : Hook → Engine → Outcome (Unit {0})) (hooks : List Hook)
      → Keeps (call_hooks setup sampler turn_id f hooks)
  call_hooks-Keeps f [] = Owing-pure id (λ _. 0) tt
  call_hooks-Keeps f (hook ∷ hooks) =
      Owing-bind id 0 (λ _. 0) (λ _. 0) (resolve setup sampler turn_id (f hook))
        (λ _. call_hooks setup sampler turn_id f hooks) (resolve-Keeps (f hook))
        (λ _. call_hooks-Keeps f hooks)

  write_compaction-Keeps :
      (events : List SessionEvent)
      → requests id events ≡ 0
      → Keeps (write_compaction setup sampler turn_id events)
  write_compaction-Keeps [] p = Owing-pure id (λ _. 0) false
  write_compaction-Keeps (e ∷ es) p =
      Owing-bind id 0 (λ _. 0) (λ _. 0) (append setup.compacts (e ∷ es)) (λ _. pure true)
        (Owing-append id setup.compacts (e ∷ es) 0 0 (omega arith))
        (λ _. Owing-pure id (λ _. 0) true)

  compact_with-Keeps :
      (compactor : Option (Compactor setup sampler turn_id)) (forced : Bool) (req : SampleRequest)
      → IsQuiet id compactor
      → Keeps (compact_with setup sampler turn_id compactor forced req)
  compact_with-Keeps none forced req q = Owing-pure id (λ _. 0) false
  compact_with-Keeps (some compactor) forced req q = record {
    after = λ s a t p.
        let (events, mid, r, w) =
          bind-inverse (resolve setup sampler turn_id (λ engine. compactor engine req forced))
            (write_compaction setup sampler turn_id) s t a p in
        let x : compactor s req forced ≡ ok events =
          ap (λ (y : Outcome (List SessionEvent) × Engine). y.0) r in
        let y : s ≡ mid = ap (λ (z : Outcome (List SessionEvent) × Engine). z.1) r in
        let n : requests id events ≡ 0 =
          subst (λ (z : Outcome (List SessionEvent)). requests id (given z) ≡ 0) x
            (q s req forced) in
        subst (λ (z : Engine). Owes id 0 0 z t) (sym y)
          ((write_compaction-Keeps events n).after mid a t w);
  }

  compact-Keeps :
      (forced : Bool) (req : SampleRequest) → Keeps (compact setup sampler turn_id forced req)
  unfolding compact
  compact-Keeps forced req = compact_with-Keeps sampler.compactor forced req quiet

  rebuild-Keeps :
      (prompt : String) (params : Dict Json) (compacted : Bool)
      → Keeps (rebuild setup sampler turn_id prompt params compacted)
  rebuild-Keeps prompt params true =
      Owing-still id 0 (rebuild setup sampler turn_id prompt params true) (λ s. refl)
  rebuild-Keeps prompt params false =
      Owing-still id 0 (rebuild setup sampler turn_id prompt params false) (λ s. refl)

  recover_overflow-Keeps :
      (prompt : String) (req : SampleRequest)
      → Keeps (recover_overflow setup sampler turn_id prompt req)
  unfolding recover_overflow
  recover_overflow-Keeps prompt req =
      Owing-bind id 0 (λ _. 0) (λ _. 0) (compact setup sampler turn_id true req)
        (rebuild setup sampler turn_id prompt req.params) (compact-Keeps true req)
        (rebuild-Keeps prompt req.params)

  pub finish-Keeps :
      (e : SessionEvent) → requests id (e ∷ []) ≡ 0 → Keeps (finish setup sampler turn_id e)
  unfolding finish
  finish-Keeps e p =
      let after : Act (Unit {0}) =
        call_hooks setup sampler turn_id (λ hook engine. hook.after_turn engine e) setup.hooks in
      Owing-bind id 0 (λ _. 0) (λ _. 0) (append setup.compacts (e ∷ []))
        (λ _. keep setup sampler turn_id e >>= λ _. after >>= λ _. pure e) (append-Keeps e p)
        (λ _.
          Owing-bind id 0 (λ _. 0) (λ _. 0) (keep setup sampler turn_id e)
            (λ _. after >>= λ _. pure e)
            (Owing-still id 0 (keep setup sampler turn_id e) (λ s. refl))
            (λ _.
              Owing-bind id 0 (λ _. 0) (λ _. 0) after (λ _. pure e)
                (call_hooks-Keeps (λ hook engine. hook.after_turn engine e) setup.hooks)
                (λ _. Owing-pure id (λ _. 0) e)))

  keep_ids-Keeps :
      (found : Outcome (List ToolCall × List String)) → Keeps (keep_ids setup sampler turn_id found)
  keep_ids-Keeps (raise e) = Owing-fail id 0 (λ _. 0) e
  keep_ids-Keeps (ok (calls, taken)) =
      Owing-still id 0 (keep_ids setup sampler turn_id (ok (calls, taken))) (λ s. refl)

  take_ids-Keeps :
      (number : ℕ) (end : StreamEnd) → Keeps (take_ids setup sampler turn_id number end)
  unfolding take_ids
  take_ids-Keeps number end =
      Owing-read id 0 (λ _. 0)
        (λ engine.
          keep_ids setup sampler turn_id
            (unique_calls (sampler.digest number) 0 engine.call_ids end.tool_calls))
        (λ engine.
          keep_ids-Keeps (unique_calls (sampler.digest number) 0 engine.call_ids end.tool_calls))

  write_parts-Owing :
      (sample_id : String) (end : StreamEnd) (calls : List ToolCall)
      → Owing id 0 (owed_requests id) (write_parts setup sampler turn_id sample_id end calls)
  unfolding write_parts add_usage
  write_parts-Owing sample_id end calls =
      let rs = named sampler.loads sampler.is_blank sample_id calls in
      let due = owed_requests id rs in
      Owing-bind id 0 (λ _. due) (owed_requests id) (append setup.compacts (parts sample_id end rs))
        (λ _. add_usage setup sampler turn_id end >>= λ _. pure rs)
        (Owing-append id setup.compacts (parts sample_id end rs) 0 due
          (let x = requests-parts id sample_id end rs in omega arith))
        (λ _.
          Owing-bind id due (λ _. due) (owed_requests id) (add_usage setup sampler turn_id end)
            (λ _. pure rs) (Owing-still id due (add_usage setup sampler turn_id end) (λ s. refl))
            (λ _. Owing-pure id (owed_requests id) rs))

  request_sample-Owing :
      (number : ℕ) (prompt : String) (req : SampleRequest) (sample_id : String)
      → Owing id 0
          (owed_requests id)
          (request_sample setup sampler turn_id number prompt req sample_id)
  unfolding request_sample total
  request_sample-Owing number prompt req sample_id =
      let recover = recover_overflow setup sampler turn_id prompt req in
      let sampling =
        sample_once setup.compacts sampler.batches sampler.size_of sampler.retry sampler.stream
          recover req in
      let opening = append setup.compacts (
        sample_started (record { turn_id = turn_id; sample_id = sample_id; model = sampler.model })
        ∷ []) in
      let write : StreamEnd → Act (List Request) = λ end.
        take_ids setup sampler turn_id number end
        >>= write_parts setup sampler turn_id sample_id end in
      Owing-bind id 0 (λ _. 0) (owed_requests id) opening (λ _. sampling >>= write)
        (append-Keeps
          (sample_started
            (record { turn_id = turn_id; sample_id = sample_id; model = sampler.model }))
          (ground arith))
        (λ _.
          Owing-bind id 0 (λ _. 0) (owed_requests id) sampling write
            (sample_once-Owing id setup.compacts sampler.batches sampler.size_of sampler.retry
              sampler.stream recover (recover_overflow-Keeps prompt req) req)
            (λ end.
              Owing-bind id 0 (λ _. 0) (owed_requests id)
                (take_ids setup sampler turn_id number end)
                (write_parts setup sampler turn_id sample_id end) (take_ids-Keeps number end)
                (write_parts-Owing sample_id end)))

  with_prompt-Owing :
      (number : ℕ) (prompt : String) (params : Dict Json)
      → Owing id 0 (owed_requests id) (with_prompt setup sampler turn_id number prompt params)
  unfolding with_prompt
  with_prompt-Owing number prompt params =
      let request : Engine → SampleRequest = build setup sampler turn_id prompt params in
      let go : Engine → Act (List Request) =
        λ e. request_sample setup sampler turn_id number prompt (request e) (setup.uuid e) in
      Owing-read id 0 (owed_requests id)
        (λ engine. compact setup sampler turn_id false (request engine) >>= λ _. λ e. go e e)
        (λ engine.
          Owing-bind id 0 (λ _. 0) (owed_requests id)
            (compact setup sampler turn_id false (request engine)) (λ _. λ e. go e e)
            (compact-Keeps false (request engine))
            (λ _.
              Owing-read id 0 (owed_requests id) go
                (λ e. request_sample-Owing number prompt (request e) (setup.uuid e))))

  pub take_sample-Owing :
      (number : ℕ) → Owing id 0 (owed_requests id) (take_sample setup sampler turn_id number)
  unfolding take_sample
  take_sample-Owing number =
      let go : String → Act (List Request) = λ prompt.
        resolve setup sampler turn_id sampler.model_params
        >>= with_prompt setup sampler turn_id number prompt in
      let prompted : Act (List Request) = resolve setup sampler turn_id sampler.prompt >>= go in
      Owing-bind id 0 (λ _. 0) (owed_requests id)
        (call_hooks setup sampler turn_id (λ hook. hook.before_sample) setup.hooks) (λ _. prompted)
        (call_hooks-Keeps (λ hook. hook.before_sample) setup.hooks)
        (λ _.
          Owing-bind id 0 (λ _. 0) (owed_requests id) (resolve setup sampler turn_id sampler.prompt)
            go (resolve-Keeps sampler.prompt)
            (λ prompt.
              Owing-bind id 0 (λ _. 0) (owed_requests id)
                (resolve setup sampler turn_id sampler.model_params)
                (with_prompt setup sampler turn_id number prompt)
                (resolve-Keeps sampler.model_params) (with_prompt-Owing number prompt)))

-- ===== src/Turn/Drive.antt =====
-- `_compact`, `_recover_overflow`, `_drive`, `_finish` and `run`: the loop of a turn.
use tantra.Prelude.{
  ℕ, zero, suc, String, Bool, true, false, Option, none, some, List, [], ◌∷◌, ◌++◌, filter_map,
  is_some, leb,
}
use tantra.Prelude.Outcome.{Outcome, ok, raise, provider_error, tantra_error}
use tantra.Prelude.Stateful.{◌>>=◌, pure, fail}
use tantra.Prelude.Dict.{Dict}
use tantra.Json.{Json, null}
use tantra.Events.{
  SessionEvent, turn_started, sample_started, tool_call_requested, turn_completed, turn_failed,
}
use tantra.Messages.{SampleRequest, StreamEnd, ToolSchema}
use tantra.Requests.{build_sample_request}
use tantra.Skills.{SkillInfo}
use tantra.Turn.{Engine, Act, RetryConfig, append, accumulate}
use tantra.Turn.Sampling.{Streamed, sample_once}
use tantra.Turn.Parts.{Checked, Request, unique_calls, request_of, parts}
use tantra.Turn.Setup.{Hook, Setup}
use tantra.Turn.Batch.{run_batch}

-- What samples are made with. `digest` gets the number of the sample, and `error_text` is the text of
-- the error that the turn fails with.
pub record Sampler : Type 0 where
  pub model : String
  pub prompt : Engine → Outcome String
  pub model_params : Engine → Outcome (Dict Json)
  pub schemas : List ToolSchema
  pub skills_index : List SkillInfo
  pub is_child : Bool
  pub max_steps : ℕ
  pub compactor : Option (Engine → SampleRequest → Bool → Outcome (List SessionEvent))
  pub batches : Bool
  pub size_of : SessionEvent → ℕ
  pub retry : RetryConfig
  pub stream : Engine → SampleRequest → Streamed
  pub digest : ℕ → ℕ → ℕ → String
  pub loads : String → Checked Json
  pub is_blank : String → Bool
  pub dump_json : Json → String
  pub error_text : Engine → String

abbrev pub as_request : SessionEvent → Option String
as_request (tool_call_requested e) = some e.call_id
as_request _ = none

-- the calls without what was wrong with them
unfoldable pub named :
    (String → Checked Json)
    → (String → Bool)
    → String
    → List tantra.Messages.ToolCall
    → List Request
unfolding request_of
named loads is_blank sample_id [] = []
named loads is_blank sample_id (call ∷ calls) =
    request_of loads is_blank sample_id call ∷ named loads is_blank sample_id calls

module _ (setup : Setup) (sampler : Sampler) (turn_id : String) where
  -- what a function of the engine gives or raises
  abbrev pub resolve : {A : Type 0} → (Engine → Outcome A) → Act A
  resolve f engine = (f engine, engine)

  abbrev pub build : String → Dict Json → Engine → SampleRequest
  build prompt params engine =
      build_sample_request sampler.dump_json sampler.model prompt engine.history sampler.schemas
        params sampler.skills_index sampler.is_child

  abbrev pub write_compaction : List SessionEvent → Act Bool
  write_compaction [] = pure false
  write_compaction (e ∷ es) = append setup.compacts (e ∷ es) >>= λ _. pure true

  abbrev pub Compactor : Type 0
  Compactor = Engine → SampleRequest → Bool → Outcome (List SessionEvent)

  abbrev pub compact_with : Option Compactor → Bool → SampleRequest → Act Bool
  compact_with none forced req = pure false
  compact_with (some compactor) forced req =
      resolve (λ engine. compactor engine req forced) >>= write_compaction

  -- `_compact`: whether anything was written
  unfoldable pub compact : Bool → SampleRequest → Act Bool
  compact = compact_with sampler.compactor

  abbrev pub rebuild : String → Dict Json → Bool → Act (Option SampleRequest)
  rebuild prompt params true engine = (ok (some (build prompt params engine)), engine)
  rebuild prompt params false engine = (ok none, engine)

  unfoldable pub recover_overflow : String → SampleRequest → Act (Option SampleRequest)
  unfolding compact
  recover_overflow prompt prepared = compact true prepared >>= rebuild prompt prepared.params

  -- what each hook does at one place of the turn
  abbrev pub call_hooks : (Hook → Engine → Outcome (Unit {0})) → List Hook → Act (Unit {0})
  call_hooks f [] = pure tt
  call_hooks f (hook ∷ hooks) = resolve (f hook) >>= λ _. call_hooks f hooks

  abbrev pub keep : SessionEvent → Act (Unit {0})
  keep terminal engine = (ok tt, record engine { terminal = some terminal })

  -- `_finish`
  unfoldable pub finish : SessionEvent → Act SessionEvent
  finish terminal = append setup.compacts (terminal ∷ []) >>= λ _. keep terminal >>= λ _.
      call_hooks (λ hook engine. hook.after_turn engine terminal) setup.hooks >>= λ _. pure terminal

  abbrev pub stopped : String → Json → SessionEvent
  stopped reason output =
      turn_completed (record { turn_id = turn_id; stop_reason = reason; output = output })

  abbrev pub keep_ids :
      Outcome (List tantra.Messages.ToolCall × List String) → Act (List tantra.Messages.ToolCall)
  keep_ids (raise e) = fail e
  keep_ids (ok (calls, taken)) = λ engine. (ok calls, record engine { call_ids = taken })

  -- the calls of a sample get their ids, which are then taken
  unfoldable pub take_ids : ℕ → StreamEnd → Act (List tantra.Messages.ToolCall)
  take_ids number end engine =
      keep_ids (unique_calls (sampler.digest number) 0 engine.call_ids end.tool_calls) engine

  unfoldable pub add_usage : StreamEnd → Act (Unit {0})
  unfolding accumulate
  add_usage end engine = (ok tt, record engine { usage = accumulate engine.usage end.usage })

  -- the parts of a sample are written
  unfoldable pub write_parts :
      String → StreamEnd → List tantra.Messages.ToolCall → Act (List Request)
  unfolding named parts
  write_parts sample_id end calls =
      let rs = named sampler.loads sampler.is_blank sample_id calls in
      append setup.compacts (parts sample_id end rs) >>= λ _. add_usage end >>= λ _. pure rs

  -- a sample, for the request
  unfoldable pub request_sample : ℕ → String → SampleRequest → String → Act (List Request)
  unfolding recover_overflow sample_once take_ids write_parts
  request_sample number prompt req sample_id =
      append setup.compacts (
        sample_started (record { turn_id = turn_id; sample_id = sample_id; model = sampler.model })
        ∷ [])
      >>= λ _.
          sample_once setup.compacts sampler.batches sampler.size_of sampler.retry sampler.stream
            (recover_overflow prompt req) req
          >>= λ end. take_ids number end >>= write_parts sample_id end

  unfoldable pub with_prompt : ℕ → String → Dict Json → Act (List Request)
  unfolding compact request_sample
  with_prompt number prompt params = λ engine.
      (compact false (build prompt params engine) >>= λ _.
      λ e. request_sample number prompt (build prompt params e) (setup.uuid e) e)
        engine

  -- from the request to the parts of the sample, which are written
  unfoldable pub take_sample : ℕ → Act (List Request)
  unfolding with_prompt
  take_sample number = call_hooks (λ hook. hook.before_sample) setup.hooks >>= λ _.
      resolve sampler.prompt >>= λ prompt.
      resolve sampler.model_params >>= λ params. with_prompt number prompt params

  unfoldable pub after_batch : Bool → Act SessionEvent → Option Json → Act SessionEvent
  unfolding finish
  after_batch capped on (some output) = finish (stopped "output" output)
  after_batch true on none = finish (stopped "max_steps" null)
  after_batch false on none = on

  unfoldable pub after_sample : Bool → Act SessionEvent → List Request → Act SessionEvent
  unfolding finish run_batch after_batch
  after_sample capped on [] = finish (stopped "completed" null)
  after_sample capped on (r ∷ rs) = run_batch setup capped (r ∷ rs) >>= after_batch capped on

  -- The samples that are left, and the number of the next one.
  unfoldable pub drive : ℕ → ℕ → Act SessionEvent
  unfolding take_sample finish after_sample
  drive zero number = finish (stopped "max_steps" null)
  drive (suc left) number =
      let on = drive left (suc number) in
      take_sample number >>= after_sample (leb sampler.max_steps (suc number)) on

  unfoldable pub or_failed : Outcome SessionEvent → Act SessionEvent
  unfolding finish
  or_failed (ok terminal) = pure terminal
  or_failed (raise provider_error) = λ engine.
      finish (turn_failed (record { turn_id = turn_id; error = sampler.error_text engine })) engine
  or_failed (raise e) = fail e

  -- the turn, which fails when the provider does
  unfoldable pub drive_or_fail : Act SessionEvent
  unfolding drive or_failed
  drive_or_fail engine =
      let (result, after) = drive sampler.max_steps 0 engine in or_failed result after

  -- the calls of earlier turns
  abbrev pub load_ids : Act (Unit {0})
  load_ids engine =
      (ok tt, record engine { call_ids = engine.call_ids ++ filter_map as_request engine.history })

  unfoldable pub run_once : Bool → String → Act SessionEvent
  unfolding drive_or_fail
  run_once true input = fail tantra_error
  run_once false input =
      append setup.compacts (turn_started (record { turn_id = turn_id; input = input }) ∷ [])
      >>= λ _. call_hooks (λ hook. hook.before_turn) setup.hooks >>= λ _. drive_or_fail

  -- `run`, whose command is `turn_id`; the engine has the history that was read
  unfoldable pub run : String → Act SessionEvent
  unfolding run_once
  run input engine = (load_ids >>= λ _. run_once (is_some engine.terminal) input) engine

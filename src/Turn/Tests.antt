-- ===== src/Turn/Tests.antt =====
-- A turn of two samples: the first calls two tools, of which one is not known and a third call has
-- arguments that are no JSON; the second says how it went.
use tantra.Prelude.{
  last?, ◌≤◌, ◌+◌, max, ◌≡◌, ◌≢◌, refl, true, false, Option, none, some, List, [], ◌∷◌, eqb, arith,
  ◌==◌, if◌then◌else◌,
}
use tantra.Prelude.Dict
use tantra.Prelude.Dict.{Dict}
use tantra.Prelude.Outcome.{ok}
use tantra.Prelude.Stateful.{pure}
use tantra.Json.{text, null, object, nil}
use tantra.Events.{SessionEvent, TurnCompleted, TurnStarted, turn_completed, turn_started}
use tantra.Journal.{reduce_journal, terminal_id}
use tantra.Messages.{ProviderEvent, StreamEnd, SampleRequest}
use tantra.Permissions.{Permission, decide}
use tantra.Samples.{no_usage}
use tantra.Turn.{Engine, ProviderError, default_retry, append, accumulate, is_retryable}
use tantra.Turn.Stream.{Moment, timeout, arrives, stream_events, no_events}
use tantra.Turn.Sampling.{Streamed, sample, sample_once}
use tantra.Turn.Parts.{valid, invalid, free_id, unique_calls, parse_args, request_of, parts}
use tantra.Turn.Setup.{Setup, Tool, Hook, passes}
use tantra.Turn.Tools.{
  permission_for, ask_person, approve, check_judged, when_judged, check_tool, check_call,
}
use tantra.Turn.Batch.{preflight, invocation, run_all, run_batch}
use tantra.Turn.Counts.{requests, completions}
use tantra.Turn.Drive.{
  Sampler, compact, recover_overflow, finish, take_ids, named, add_usage, write_parts,
  request_sample, with_prompt, take_sample, after_batch, after_sample, drive, or_failed,
  drive_or_fail, run_once, run,
}
use tantra.Turn.Completes.{run_completes}
use tantra.Turn.Ends.{run_settles}
use tantra.Turn.Batches.{unpack, said, unpack-stream_events}
use tantra.Turn.Tries.{Sends, sample_once-Sends}

abbrev echo : Tool
echo = record { permission = none; validate = λ args. valid args }

-- a hook that lets every call and every result pass
abbrev watcher : Hook
watcher = record {
  before_turn = λ engine. ok tt;
  before_sample = λ engine. ok tt;
  before_tool = λ engine call. ok passes;
  after_tool = λ engine call result is_error. ok none;
  after_turn = λ engine terminal. ok tt;
}

abbrev setup : Setup
setup = record {
  compacts = false;
  output_schema = none;
  permissions = [];
  default_permission = Permission.allow;
  permission_chain = [];
  tools = ("echo", echo) ∷ [];
  hooks = watcher ∷ [];
  allow_asks = false;
  can_ask = false;
  fnmatch = λ a b. a == b;
  dumps = λ args. "{}";
  reload = λ args. object nil;
  repr = λ name. name;
  uuid = λ engine. if eqb engine.calls_made 0 then "s1" else "s2";
  human = λ engine raised. record {
    before = [];
    answer = record {
      ask_id = raised.ask_id;
      response = tantra.Events.allow false;
      command_id = none;
      answered_by = none;
      submitted_by = none;
    };
    after = [];
  };
  run_tool =
      λ engine p. record { messages = "running" ∷ []; result = text "echoed"; is_error = false };
  choices = λ engine. [];
}

abbrev with_calls : StreamEnd
with_calls = record {
  text = "";
  reasoning = [];
  tool_calls =
      record { id = "c1"; name = "echo"; args = "{}" }
      ∷ record { id = "c2"; name = "fly"; args = "{}" }
      ∷ record { id = "c3"; name = "echo"; args = "oops" }
      ∷ [];
  usage = no_usage;
  finish_reason = none;
}

abbrev with_text : StreamEnd
with_text = record {
  text = "done";
  reasoning = [];
  tool_calls = [];
  usage = no_usage;
  finish_reason = none;
}

abbrev sent : StreamEnd → List Moment
sent end =
    arrives (ProviderEvent.text_delta (record { text = "a" })) false
    ∷ arrives (ProviderEvent.text_delta (record { text = "b" })) true
    ∷ timeout
    ∷ arrives (ProviderEvent.stream_end end) false
    ∷ []

abbrev busy : ProviderError
busy = record { status_code = some 429; retryable = none; context_overflow = false }

-- the provider is busy at first
abbrev provider : Engine → SampleRequest → Streamed
provider engine req =
    if eqb engine.calls_made 1
    then record { moments = []; failure = some busy }
    else if eqb engine.calls_made 2
    then record { moments = sent with_calls; failure = none }
    else record { moments = sent with_text; failure = none }

abbrev sampler : Sampler
sampler = record {
  model = "small";
  prompt = λ engine. ok "be brief";
  model_params = λ engine. ok [];
  schemas = [];
  skills_index = [];
  is_child = false;
  max_steps = 3;
  compactor = none;
  batches = true;
  size_of = λ event. 10;
  retry = default_retry;
  stream = provider;
  digest = λ number index attempt. "other";
  loads = λ args. if args == "{}" then valid (object nil) else invalid "no JSON";
  is_blank = λ args. args == "";
  dump_json = λ value. "{}";
  error_text = λ engine. "failed";
}

abbrev fresh : Engine
fresh = record {
  history = [];
  log = [];
  call_ids = [];
  usage = no_usage;
  calls_made = 0;
  terminal = none;
}

abbrev outcome : TurnCompleted
outcome = record { turn_id = "k"; stop_reason = "completed"; output = null }

abbrev finished : Engine
unfolding run
finished = (run setup sampler "k" "go" fresh).1

run-finished : run setup sampler "k" "go" fresh ≡ (ok (turn_completed outcome), finished)
unfolding finished run run_once drive_or_fail or_failed drive after_sample after_batch take_sample
    with_prompt request_sample write_parts add_usage named take_ids finish recover_overflow compact
    run_batch run_all invocation preflight check_call check_tool check_judged when_judged approve
    ask_person permission_for decide parts request_of parse_args unique_calls free_id sample
    sample_once stream_events append accumulate is_retryable Dict.get
run-finished = refl

run_completes_example : requests "c3" finished.log ≤ completions "c3" finished.log
run_completes_example =
    run_completes setup sampler "k" "c3" tt "go" fresh finished outcome refl run-finished

-- the turn before it is the one that is incomplete
abbrev earlier : TurnStarted
earlier = record { turn_id = "j"; input = "wait" }

incomplete-finished :
    (reduce_journal (turn_started earlier ∷ finished.log)).incomplete ≡ some earlier
unfolding reduce_journal finished run run_once drive_or_fail or_failed drive after_sample
    after_batch take_sample with_prompt request_sample write_parts add_usage named take_ids finish
    recover_overflow compact run_batch run_all invocation preflight check_call check_tool
    check_judged when_judged approve ask_person permission_for decide parts request_of parse_args
    unique_calls free_id sample sample_once stream_events append accumulate is_retryable Dict.get
incomplete-finished = refl

run_settles_example :
    (earlier.turn_id ≢ "k")
    × (last? finished.log ≡ some (turn_completed outcome))
    × (terminal_id (turn_completed outcome) ≡ some "k")
    × (finished.terminal ≡ some (turn_completed outcome))
run_settles_example =
    run_settles setup sampler "k" "go" (turn_started earlier ∷ []) fresh finished
      (turn_completed outcome) earlier run-finished incomplete-finished

unpack-stream_events_example :
    unpack (stream_events true (λ e. 10) (sent with_text) no_events) ≡ said (sent with_text)
unpack-stream_events_example = unpack-stream_events (λ e. 10) true (sent with_text)

no_recovery : Sends {A = Option SampleRequest} 0 (pure none)
no_recovery = record { calls = λ s. omega arith; stops = λ s p. absurd (ground arith) }

abbrev req : SampleRequest
req = record { model = "small"; system = []; messages = []; tools = []; params = [] }

sample_once-Sends_example :
    Sends (max 1 3 + 1) (sample_once false true (λ e. 10) default_retry provider (pure none) req)
sample_once-Sends_example =
    sample_once-Sends false true (λ e. 10) default_retry provider (pure none) no_recovery req

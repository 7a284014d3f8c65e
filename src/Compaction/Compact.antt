-- ===== src/Compaction/Compact.antt =====
-- compaction.py: `CompactionConfig` and `PruneThenSummarize._compact`. Floats are Python's: for
-- `trigger_at` and `summarize_at` stand `scale_trigger` and `scale_target`, the results of
-- `int(n * trigger_at)` and `int(n * summarize_at)`. `stream` is the provider: the events that it
-- yields for a request, or what it raises. The tracer's calls change nothing here.
use tantra.Prelude.{
  ℕ, ◌+◌, String, Bool, false, ◌&&◌, ◌||◌, not, Option, none, some, List, [], ◌∷◌, ◌++◌, any, drop,
  eqb, filter, filter_map, is_some, last?, length, ltb, map, max, or_text, take, ◌==◌,
  if◌then◌else◌,
}
use tantra.Prelude.Int.{ℤ, pos, sub_ℕ, ◌-ℤ◌, leb_ℤ, ltb_ℤ, min_ℤ, pos_part}
use tantra.Prelude.Outcome.{Outcome, ok, raise, raise_if, or_raise, ◌>>=◌, ◌>>◌, provider_error}
use tantra.Json.{int}
use tantra.Events.{
  SessionEvent, ToolCallCompleted, turn_started, tool_call_completed, tool_call_requested,
  compaction_applied,
}
use tantra.Messages.{ModelLimits, SampleRequest, ProviderEvent, StreamEnd, stream_end, user}
use tantra.Context.{assemble_messages, compaction_window}
use tantra.Compaction.Estimate.{
  Codec, rough_messages, estimate_tokens, estimate_from, estimate_request_tokens, projected,
}
use tantra.Compaction.Tail.{tail_start, starts_from}
use tantra.Compaction.Prune.{prune, names_of}

pub record CompactionConfig : Type 0 where
  pub buffer : ℕ
  pub prune_pool_min : ℕ
  pub prune_gain_min : ℕ
  pub tail_turns : ℕ
  pub scale_target : ℤ → ℤ
  pub scale_trigger : ℕ → ℕ
  pub recent_tokens : ℕ
  pub summary_max_output : ℕ

-- the fields of `TurnContext` that a compaction reads
pub record CompactionTurn : Type 0 where
  pub history : List SessionEvent
  pub limits : ModelLimits
  pub sample_request : Option SampleRequest
  pub model : String

unfoldable pub usable : CompactionConfig → ModelLimits → ℤ
usable config limits =
    min_ℤ (pos (config.scale_trigger limits.context_window))
      (sub_ℕ limits.context_window (limits.max_output + config.buffer))

abbrev pub strategy : String
strategy = "prune_then_summarize"

abbrev pub turn_id_of : SessionEvent → Option String
turn_id_of (turn_started e) = some e.turn_id
turn_id_of _ = none

-- `next((event.turn_id for event in events if isinstance(event, TurnStarted)), None)`
abbrev pub first_turn : List SessionEvent → Option String
first_turn [] = none
first_turn (e ∷ es) = elim (turn_id_of e) [ some id ↦ some id | none ↦ first_turn es ]

abbrev pub requests : String → SessionEvent → Bool
requests id (tool_call_requested e) = e.call_id == id
requests id _ = false

abbrev pub as_end : ProviderEvent → Option StreamEnd
as_end (stream_end e) = some e
as_end _ = none

abbrev pub end_text : Option StreamEnd → String
end_text none = ""
end_text (some e) = e.text

-- `boundary == starts[0] and len(starts) > 1`: then `starts[1]`
abbrev pub move_on : Bool → List ℕ → ℕ → ℕ
move_on forward (first ∷ second ∷ _) boundary =
    if forward && eqb boundary first then second else boundary
move_on forward _ boundary = boundary

abbrev pub as_events : List ToolCallCompleted → List SessionEvent
as_events = map tool_call_completed

module _ (codec : Codec) (config : CompactionConfig) (own_model : Option String)
    (instruction : String) (stream : SampleRequest → Outcome (List ProviderEvent))
    (turn : CompactionTurn) where
  abbrev pub brief_request : String → List SessionEvent → SampleRequest
  brief_request summary prefix = record {
    model = elim (or_text own_model none) [ none ↦ turn.model | some m ↦ m ];
    system = [];
    messages = assemble_messages codec.dumps summary prefix ++ user instruction ∷ [];
    tools = [];
    params = ("max_tokens", int config.summary_max_output) ∷ [];
  }

  -- `_brief`
  unfoldable pub brief : String → List SessionEvent → Outcome String
  brief summary prefix = do
    events ← stream (brief_request summary prefix)
    let text = end_text (last? (filter_map as_end events))
    if text == "" then raise provider_error else ok text

  -- the end of `_compact`, from the test on `floor`
  unfoldable pub summarize :
      ℤ → ℕ → String → List SessionEvent → List ToolCallCompleted → ℕ → Outcome (List SessionEvent)
  unfolding brief
  summarize trigger before summary window stubs boundary = do
    let prefix = take boundary window
    let kept = drop boundary window
    floor ← or_raise (first_turn kept) provider_error
    raise_if (not (is_some (first_turn prefix))) provider_error
    text ← brief summary (prefix ++ as_events stubs)
    let after = projected codec turn.sample_request text (kept ++ as_events stubs)
    raise_if (leb_ℤ trigger (pos after)) provider_error
    ok (
        as_events (filter (λ e. any (requests e.call_id) kept) stubs)
        ++ compaction_applied (record {
          strategy = strategy;
          tokens_before = before;
          tokens_after = after;
          summary = text;
          floor_turn_id = some floor;
        })
          ∷ [])

  -- where the summary ends
  unfoldable pub boundary_for : ℤ → Bool → List SessionEvent → List ToolCallCompleted → ℕ
  boundary_for target forward window stubs =
      let fixed = projected codec turn.sample_request "" [] in
      let budget = pos_part (min_ℤ (pos config.recent_tokens) (target -ℤ pos fixed)) in
      move_on forward (starts_from 0 window)
        (tail_start codec (window ++ as_events stubs) budget config.tail_turns)

  -- `_compact` once it goes ahead, with `reported` and `projected`
  unfoldable pub shrink :
      ℤ → String → List SessionEvent → Bool → ℕ → ℕ → Outcome (List SessionEvent)
  unfolding summarize boundary_for
  shrink trigger summary window forced reported estimated =
      let before = max reported estimated in
      let target = config.scale_target trigger in
      let stubs =
        (prune codec config.prune_pool_min config.prune_gain_min window (names_of window []) before
          target).0 in
      let starts = starts_from 0 window in
      let current : ℕ = elim (last? starts) [ none ↦ length window | some start ↦ start ] in
      let irreducible =
        projected codec turn.sample_request "" (drop current window ++ as_events stubs) in
      let boundary = boundary_for target (forced || ltb estimated reported) window stubs in
      let after_prune = projected codec turn.sample_request summary (window ++ as_events stubs) in
      let rest = summarize trigger before summary window stubs boundary in
      if leb_ℤ trigger (pos irreducible)
      then raise provider_error
      else if is_some (last? stubs) && leb_ℤ (pos after_prune) target
      then ok (as_events stubs)
      else rest

  unfoldable pub compact : Bool → Option SampleRequest → Outcome (List SessionEvent)
  unfolding shrink
  compact forced prepared =
      let (summary, window) = compaction_window turn.history in
      let trigger = usable config turn.limits in
      let reported : ℕ = elim prepared [
        | none ↦ estimate_tokens codec window summary
        | some request ↦ estimate_from codec window (rough_messages codec request.messages)
      ] in
      let estimated : ℕ = elim prepared [
        | none ↦ projected codec turn.sample_request summary window
        | some request ↦ estimate_request_tokens codec request
      ] in
      if not forced && ltb_ℤ (pos (max reported estimated)) trigger
      then ok []
      else shrink trigger summary window forced reported estimated

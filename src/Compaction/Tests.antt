-- ===== src/Compaction/Tests.antt =====
-- Compactions of a history of three turns. A token is a character here.
use tantra.Prelude.{◌≤◌, ◌≡◌, refl, false, ◌⊎◌, none, some, List, [], ◌∷◌, ◌++◌, drop}
use tantra.Prelude.Dict
use tantra.Prelude.Int.{pos, leb_ℤ}
use tantra.Prelude.Outcome.{Outcome, ok}
use tantra.Events.{SessionEvent, CompactionApplied, compaction_applied}
use tantra.Messages.{SampleRequest, ProviderEvent, stream_end}
use tantra.Context.{
  compaction_window, find_turn, last_applied, assemble_messages, assemble_events, assemble_event,
}
use tantra.Compaction.Estimate.{Codec, projected, rough}
use tantra.Compaction.Tail.{tail_start}
use tantra.Compaction.Tail.Budget.{tail_start_ignores_tail_turns, tail_start_fits}
use tantra.Compaction.Compact.{CompactionConfig, CompactionTurn, summarize, brief}
use tantra.Compaction.Fits.{summarize_fits}
use tantra.Samples.{one_turn, start, no_usage}

abbrev codec : Codec
codec = record {
  dumps = λ _. "{}";
  decimal = λ _. "0";
  message_size = λ _. 20;
  request_size = λ _. 1;
}

abbrev history : List SessionEvent
history = one_turn "a" "k1" ++ (one_turn "b" "k2" ++ one_turn "c" "k3")

tail_start_ignores_tail_turns_example :
    tail_start codec history 30 1 ≡ tail_start codec history 30 3
tail_start_ignores_tail_turns_example = tail_start_ignores_tail_turns codec history 30 1 3

tail_start_fits_example :
    (tail_start codec history 30 2 ≡ 10)
    ⊎ (rough codec (drop (tail_start codec history 30 2) history) "" ≤ 30)
tail_start_fits_example = tail_start_fits codec history 30 2 10 refl

abbrev config : CompactionConfig
config = record {
  buffer = 10;
  prune_pool_min = 10;
  prune_gain_min = 5;
  tail_turns = 2;
  scale_target = λ n. n;
  scale_trigger = λ n. n;
  recent_tokens = 40;
  summary_max_output = 5;
}

abbrev turn : CompactionTurn
turn = record {
  history = history;
  limits = record { context_window = 1000; max_output = 10 };
  sample_request = none;
  model = "small";
}

abbrev stream : SampleRequest → Outcome (List ProviderEvent)
stream _ = ok (
    stream_end (record {
      text = "so far";
      reasoning = [];
      tool_calls = [];
      usage = no_usage;
      finish_reason = none;
    })
    ∷ [])

abbrev compacted : CompactionApplied
compacted = record {
  strategy = "prune_then_summarize";
  tokens_before = 120;
  tokens_after = 35;
  summary = "so far";
  floor_turn_id = some "b";
}

summarize_history :
    summarize codec config none "shorten" stream turn (pos 900) 120 "" history [] 5
    ≡ ok (compaction_applied compacted ∷ [])
unfolding summarize brief projected assemble_messages assemble_events assemble_event Dict.get
    Dict.put
summarize_history = refl

summarize_fits_example :
    let (summary', window') = compaction_window (history ++ compaction_applied compacted ∷ []) in
    leb_ℤ (pos 900) (pos (projected codec none summary' window')) ≡ false
unfolding compaction_window find_turn last_applied
summarize_fits_example =
    summarize_fits codec config none "shorten" stream turn (pos 900) 120 "" history [] 5
      (compaction_applied compacted ∷ []) (start "b") (drop 6 history) (refl, (refl, (refl, tt)))
      refl refl summarize_history

-- ===== src/Header/Tests.antt =====
-- reduce_header at work.
use tantra.Prelude.{◌≡◌, refl, ◌⊎◌, none, some}
use tantra.Prelude.Outcome.{ok}
use tantra.Events.{SessionHeader, SessionStatus, TurnOutcome}
use tantra.Journal.{reduce_journal}
use tantra.Header.{reduce_header, apply_events, apply_event, summary}
use tantra.Header.Agrees.{reduce_header-reduce_journal, turn_of, last_marked}
use tantra.Samples.{journal, header_of, uuid}

abbrev reduced : SessionHeader
reduced = record (header_of "root" none) {
  updated_at = 7;
  status = SessionStatus.running;
  current_turn_id = some "b";
  last_turn = some (record {
    turn_id = "a";
    outcome = TurnOutcome.completed;
    stop_reason = some "done";
    error = none;
  });
}

reduce_header-journal : reduce_header uuid 7 (header_of "root" none) journal ≡ ok reduced
unfolding reduce_header apply_events apply_event summary
reduce_header-journal = refl

reduce_header-reduce_journal_example :
    (reduced.current_turn_id ≡ last_marked journal)
    × ((reduced.current_turn_id ≡ none)
        ⊎ (reduced.current_turn_id ≡ turn_of (reduce_journal journal).incomplete))
reduce_header-reduce_journal_example =
    reduce_header-reduce_journal uuid 7 (header_of "root" none) journal refl
      ((refl, refl), ((refl, refl), (tt, ((refl, refl), ((refl, refl), ((refl, refl), tt))))))
      reduce_header-journal

-- ===== src/Recovery/Tests.antt =====
-- A root with a running turn, another command that waits, and a cancellation of that command.
use tantra.Prelude.{ℕ, suc, String, ◌≡◌, refl, none, some, List, [], ◌∷◌, ◌++◌, length}
use tantra.Prelude.Dict
use tantra.Events.{SessionEvent, SessionHeader, SessionStatus, Stamped}
use tantra.Header.{reduce_header, apply_events, apply_event}
use tantra.Journal.{reduce_journal}
use tantra.MemoryStore.{MemoryStore, empty, create, enqueue, find_command, log_of, store_header}
use tantra.MemoryStore.Calls.{Call, creates, enqueues, after_calls, calls_keep-IsValid}
use tantra.Recovery.{
  reduce_operational, recovery_events, events_of, interrupt, cancel, read_journal,
}
use tantra.Recovery.Settles.{incomplete-recovery_events}
use tantra.Recovery.Paging.{read_journal-log_of}
use tantra.Samples.{journal, header_of, command, uuid}

abbrev number : ℕ → List SessionEvent → List Stamped
number n [] = []
number n (e ∷ es) = record { seq = n; event = e } ∷ number (suc n) es

abbrev cancelled : Dict.Dict (List String)
cancelled = ("root", "c" ∷ "gone" ∷ []) ∷ []

-- the waiting command is cancelled, and the turn that ran is interrupted
settled :
    recovery_events cancelled "root" (reduce_operational (number 1 journal))
    ≡ cancel "c" ∷ interrupt [] (reduce_operational (number 1 journal)).incomplete
unfolding recovery_events reduce_operational reduce_journal Dict.get
settled = refl

incomplete-recovery_events_example :
    (reduce_journal (
      events_of (number 1 journal)
      ++ recovery_events cancelled "root" (reduce_operational (number 1 journal)))).incomplete
    ≡ none
incomplete-recovery_events_example =
    incomplete-recovery_events cancelled "root" (number 1 journal)
      ((refl, refl), ((refl, refl), (tt, ((refl, refl), ((refl, refl), ((refl, refl), tt))))))

abbrev calls : List Call
calls = creates (header_of "root" none) ∷ enqueues 5 "root" (command "a" "first") ∷ []

abbrev store : MemoryStore
store = after_calls uuid calls empty

abbrev left_header : SessionHeader
left_header = record (header_of "root" none) {
  updated_at = 5;
  status = SessionStatus.queued;
  last_seq = 1;
}

root_left : Dict.get store.headers "root" ≡ some left_header
unfolding create enqueue store_header find_command log_of reduce_header apply_events apply_event
    Dict.get Dict.put
root_left = refl

read_journal-log_of_example :
    read_journal (suc (length (log_of store "root"))) "root" 0 store ≡ some (log_of store "root")
read_journal-log_of_example =
    read_journal-log_of "root" store (calls_keep-IsValid uuid calls (refl, (tt, tt))) root_left

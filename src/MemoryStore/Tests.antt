-- ===== src/MemoryStore/Tests.antt =====
-- A MemoryStore at work: a root session with a child, a queued command, a deletion.
use tantra.Prelude.{
  has, ◌⊎◌, String, ◌+◌, ◌≡◌, refl, arith, length, map, true, false, inr, none, some, List, [], ◌∷◌,
  take,
}
use tantra.Prelude.Dict
use tantra.Prelude.Outcome.{Outcome, Error, ok, raise, traverse, invalid_command_reuse}
use tantra.Prelude.Sorting.{sorted}
use tantra.Prelude.Walk.{walk}
use tantra.Events.{
  SessionEvent, Stamped, SessionHeader, SessionStatus, TurnOutcome, input_queued, turn_started,
  same_input,
}
use tantra.Journal.{reduce_journal}
use tantra.Header.{reduce_header, apply_event, apply_events, summary}
use tantra.MemoryStore.{
  MemoryStore, empty, create, get_header, is_deleted, log_of, append, enqueue, find_command,
  store_header, read, read_page, stamp,
}
use tantra.MemoryStore.Tree.{
  is_active, tree_ids, child_ids, header_at, headers_of, delete_tree, delete_checks, drop_all,
}
use tantra.MemoryStore.Invariant.{IsValid}
use tantra.MemoryStore.Calls.{Call, creates, appends, enqueues, after_calls, calls_keep-IsValid}
use tantra.MemoryStore.Retries.{enqueue_again, enqueue_reuse}
use tantra.MemoryStore.Reads.{read_page-eq-take-read, read_page-append}
use tantra.MemoryStore.Deletion.{delete_tree_done, create_after_delete, Expects}
use tantra.MemoryStore.Closed.{delete_tree_checked, delete_tree_closed}
use tantra.Cleanup.{tree_revision, check_revision}
use tantra.Samples.{header_of, command, journal, uuid}

abbrev root : SessionHeader
root = header_of "root" none

abbrev fresh : MemoryStore
fresh = record empty { headers = ("root", root) ∷ []; events = ("root", []) ∷ [] }

abbrev queued_root : SessionHeader
queued_root = record root { updated_at = 5; status = SessionStatus.queued; last_seq = 1 }

abbrev with_command : MemoryStore
with_command = record empty {
  headers = ("root", queued_root) ∷ [];
  events = ("root", record { seq = 1; event = input_queued (command "a" "first") } ∷ []) ∷ [];
}

create-root : create root empty ≡ (ok tt, fresh)
unfolding create Dict.put Dict.get
create-root = refl

enqueue_first :
    enqueue uuid 5 "root" (command "a" "first") fresh
    ≡ (ok (record { seq = 1; duplicate = false }), with_command)
unfolding enqueue store_header find_command log_of reduce_header apply_events apply_event Dict.get
    Dict.put
enqueue_first = refl

-- what comes between: another command, a child and the start of the turn
abbrev between : List Call
between =
    enqueues 6 "root" (command "b" "second")
    ∷ creates (header_of "kid" (some "root"))
    ∷ appends 7 "root" (turn_started (record { turn_id = "a"; input = "first" }) ∷ [])
    ∷ []

abbrev busy_root : SessionHeader
busy_root = record root {
  updated_at = 7;
  status = SessionStatus.running;
  last_seq = 3;
  current_turn_id = some "a";
}

between_left : Dict.get (after_calls uuid between with_command).headers "root" ≡ some busy_root
unfolding create append enqueue store_header find_command log_of stamp reduce_header apply_events
    apply_event summary Dict.get Dict.put
between_left = refl

enqueue_again_example :
    enqueue uuid 8 "root" (command "a" "first") (after_calls uuid between with_command)
    ≡ (ok (record { seq = 1; duplicate = true }), after_calls uuid between with_command)
enqueue_again_example =
    enqueue_again uuid 5 8 between "root" (command "a" "first") fresh with_command
      (record { seq = 1; duplicate = false }) busy_root enqueue_first between_left

enqueue_reuse_example :
    enqueue uuid 8 "root" (command "a" "other") (after_calls uuid between with_command)
    ≡ (raise (invalid_command_reuse "a"), after_calls uuid between with_command)
unfolding same_input
enqueue_reuse_example =
    enqueue_reuse uuid 5 8 between "root" (command "a" "first") (command "a" "other") fresh
      with_command (record { seq = 1; duplicate = false }) busy_root enqueue_first refl refl refl
      between_left

abbrev calls : List Call
calls = creates root ∷ appends 4 "root" journal ∷ enqueues 5 "root" (command "d" "fourth") ∷ []

calls_keep-IsValid_example : IsValid (after_calls uuid calls empty)
calls_keep-IsValid_example =
    calls_keep-IsValid uuid calls (refl, ((tt, (tt, (refl, (tt, (tt, (tt, tt)))))), (tt, tt)))

-- the header that the calls leave
abbrev left_header : SessionHeader
left_header = record root {
  updated_at = 5;
  status = SessionStatus.running;
  last_seq = 7;
  current_turn_id = some "b";
  last_turn = some (record {
    turn_id = "a";
    outcome = TurnOutcome.completed;
    stop_reason = some "done";
    error = none;
  });
}

calls_left : Dict.get (after_calls uuid calls empty).headers "root" ≡ some left_header
unfolding create append enqueue store_header find_command log_of stamp reduce_header apply_events
    apply_event summary Dict.get Dict.put
calls_left = refl

read_page-eq-take-read_example :
    read_page "root" 2 3 (after_calls uuid calls empty)
    ≡ take 3 (read "root" 2 (after_calls uuid calls empty))
read_page-eq-take-read_example =
    read_page-eq-take-read "root" 2 3 (after_calls uuid calls empty) calls_keep-IsValid_example
      calls_left

abbrev more : List SessionEvent
more = input_queued (command "e" "fifth") ∷ input_queued (command "f" "sixth") ∷ []

abbrev after_more : MemoryStore
unfolding append
after_more = (append uuid 8 "root" more (after_calls uuid calls empty)).1

append-more : append uuid 8 "root" more (after_calls uuid calls empty) ≡ (ok 9, after_more)
unfolding after_more create append enqueue store_header find_command log_of stamp reduce_header
    apply_events apply_event summary Dict.get Dict.put
append-more = refl

read_page-append_example :
    (9 ≡ left_header.last_seq + length more)
    × (map (λ (x : Stamped). x.event) (read_page "root" left_header.last_seq 10 after_more) ≡ more)
read_page-append_example =
    read_page-append uuid 8 "root" more (after_calls uuid calls empty) after_more 9 10 left_header
      calls_keep-IsValid_example calls_left append-more (omega arith)

-- Deletion

abbrev digest : List SessionHeader → String
digest _ = "revision"

abbrev hook : List String → Outcome (Unit {0})
hook _ = ok tt

abbrev family : MemoryStore
family = record empty {
  headers = ("root", root) ∷ ("kid", header_of "kid" (some "root")) ∷ [];
  events = ("root", []) ∷ ("kid", []) ∷ [];
}

abbrev nobody : MemoryStore
nobody = record empty { deleted = "kid" ∷ "root" ∷ [] }

delete_family :
    delete_tree digest false hook (some "revision") "root" family
    ≡ (ok ("root" ∷ "kid" ∷ []), nobody)
unfolding delete_tree delete_checks tree_ids child_ids walk drop_all check_revision tree_revision
    is_active log_of reduce_journal sorted traverse Dict.get Dict.remove
delete_family = refl

delete_tree_done_example :
    (get_header "kid" nobody ≡ none) × (log_of nobody "kid" ≡ []) × (is_deleted "kid" nobody ≡ true)
delete_tree_done_example =
    delete_tree_done digest false hook (some "revision") "root" family nobody ("root" ∷ "kid" ∷ [])
      "kid" delete_family

create_after_delete_example :
    (x : Error) × (create (header_of "new" (some "kid")) nobody ≡ (raise x, nobody))
create_after_delete_example =
    create_after_delete digest false hook (some "revision") "root" family nobody
      ("root" ∷ "kid" ∷ []) (header_of "new" (some "kid")) "kid" delete_family refl (inr refl)

root_known : get_header "root" family ≡ some root
unfolding get_header Dict.get
root_known = refl

delete_tree_checked_example :
    (root.parent_id ≡ none)
    × ((root.root_id ≡ none) ⊎ (root.root_id ≡ some "root"))
    × (h : SessionHeader) × (get_header "kid" family ≡ some h)
    × ((false ≡ true) ⊎ (is_active family ("kid", h) ≡ false))
    × (tree : List (String × SessionHeader)) × (traverse (header_at family) ("root" ∷ "kid" ∷ [])
        ≡ ok tree)
    × Expects (some "revision") (tree_revision digest (headers_of tree))
delete_tree_checked_example =
    delete_tree_checked digest false hook (some "revision") "root" "kid" family nobody
      ("root" ∷ "kid" ∷ []) root delete_family root_known refl

abbrev two_families : List Call
two_families =
    creates root
    ∷ creates (header_of "kid" (some "root"))
    ∷ creates (header_of "other" none)
    ∷ creates (header_of "cub" (some "other"))
    ∷ []

abbrev both_families : MemoryStore
both_families = after_calls uuid two_families empty

both_families-IsValid : IsValid both_families
both_families-IsValid = calls_keep-IsValid uuid two_families (refl, (refl, (refl, (refl, tt))))

abbrev one_family : MemoryStore
one_family = record empty {
  headers = ("other", header_of "other" none) ∷ ("cub", header_of "cub" (some "other")) ∷ [];
  events = ("other", []) ∷ ("cub", []) ∷ [];
  deleted = "kid" ∷ "root" ∷ [];
}

delete_one :
    delete_tree digest false hook none "root" both_families ≡ (ok ("root" ∷ "kid" ∷ []), one_family)
unfolding create delete_tree delete_checks tree_ids child_ids walk drop_all check_revision
    tree_revision is_active log_of reduce_journal sorted traverse Dict.get Dict.put Dict.remove
delete_one = refl

root_of_two : get_header "root" both_families ≡ some root
unfolding create get_header Dict.get Dict.put
root_of_two = refl

cub_left : get_header "cub" one_family ≡ some (header_of "cub" (some "other"))
unfolding get_header Dict.get
cub_left = refl

delete_tree_closed_example :
    (has ("root" ∷ "kid" ∷ []) "root" ≡ true) × (has ("root" ∷ "kid" ∷ []) "other" ≡ false)
delete_tree_closed_example =
    delete_tree_closed digest false hook none "root" "cub" "other" both_families one_family
      ("root" ∷ "kid" ∷ []) root (header_of "cub" (some "other")) both_families-IsValid delete_one
      root_of_two cub_left refl

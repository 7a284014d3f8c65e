-- ===== src/Coordinator/Tests.antt =====
-- A database that two instances share: the instance `one` owns the tree `r` until 20, and answers a
-- request; the instance `two` takes the tree afterwards.
use tantra.Prelude.{
  ℕ, ◌+◌, ◌≤◌, ◌≡◌, refl, Bool, true, false, ◌&&◌, none, some, [], ◌∷◌, ◌==◌, eqb, eq_iff, arith,
  ◌⊎◌, inr, List,
}
use tantra.Prelude.Dict
use tantra.Prelude.Dict.{Dict}
use tantra.Prelude.Outcome.{ok, raise, lease_lost}
use tantra.Coordinator.{Ownership, CommandEnvelope, CommandReply, cancel, cancel_payload, ok_status}
use tantra.Coordinator.Database.{Database, RootRow, RequestRow, holds}
use tantra.Coordinator.Lease.{acquire, take_over, granted}
use tantra.Coordinator.Transaction.{
  Tx, pure, transact, assert_fence, change, lock_request, reply, claim_writer,
}
use tantra.Coordinator.Requests.{
  put_request, addressed, request_reply, settle, end_deletion, answer_locked, apply_request,
}
use tantra.Coordinator.System.{
  World, Reach, Step, requests, begins, goes_on, acquires, transacts, perform, claims,
}
use tantra.Coordinator.Fencing.{AreFenced, AreFenced-writes}
use tantra.Coordinator.Exclusive.{acquire_after_expiry, acquire_free}
use tantra.Coordinator.Replies.{apply_request-foreign, apply_request-request_reply}

abbrev no_rows : Database
no_rows = record {
  roots = [];
  activity = [];
  requests = [];
  changes = [];
  last_change = 0;
  sessions = [];
  deleted = [];
}

abbrev by_one : Ownership
by_one = granted "r" "one" 1 20

abbrev by_two : Ownership
by_two = granted "r" "two" 2 40

abbrev row_of_one : RootRow
row_of_one = record {
  owner = some "one";
  generation = 1;
  expires_at = some 20;
  writer = none;
  recovery = [];
}

abbrev owned : Database
owned = record no_rows { roots = ("r", row_of_one) ∷ [] }

abbrev envelope : CommandEnvelope
envelope = record {
  request_id = "q";
  root_id = "r";
  operation = cancel;
  writer_token = some (record { root_id = "r"; connection_id = "c" });
  payload = cancel_payload (record { command_id = "k"; submitted_by = none; descendants = true });
  deadline = 15;
}

abbrev same_request : CommandEnvelope → CommandEnvelope → Bool
same_request a b = a.request_id == b.request_id && eqb a.deadline b.deadline

abbrev asked : Database
unfolding put_request
asked = (put_request same_request 5 envelope by_one owned).1

put_request-asked : put_request same_request 5 envelope by_one owned ≡ (ok tt, asked)
unfolding put_request asked Dict.get Dict.put Dict.remove
put_request-asked = refl

abbrev applied : CommandReply
applied = record {
  request_id = "q";
  status = ok_status;
  result = none;
  error_code = none;
  message = none;
  retryable = false;
}

abbrev clock : ℕ → ℕ
clock n = 6 + n

abbrev handler : CommandEnvelope → Tx (CommandReply × Bool)
handler e = pure (applied, false)

abbrev served : Database
unfolding apply_request transact lock_request assert_fence answer_locked settle end_deletion reply
    change
served = (apply_request by_one clock "q" handler asked).1

apply_request-served : apply_request by_one clock "q" handler asked ≡ (ok (some applied), served)
unfolding apply_request transact lock_request assert_fence answer_locked settle end_deletion reply
    change asked served Dict.get Dict.put Dict.remove
apply_request-served = refl

abbrev row_asked : RequestRow
row_asked = addressed envelope by_one

get-asked : Dict.get asked.requests "q" ≡ some row_asked
unfolding put_request asked Dict.get Dict.put Dict.remove
get-asked = refl

apply_request-request_reply_example : request_reply "q" served ≡ some applied
apply_request-request_reply_example =
    apply_request-request_reply by_one clock handler "q" row_asked applied asked served get-asked
      refl apply_request-served

-- `one` holds the tree, and the request is for its next generation
abbrev for_later : Database
for_later = record owned { requests = ("q", record row_asked { generation = 2 }) ∷ [] }

apply_request-foreign_example :
    (apply_request by_one clock "q" handler for_later ≡ (ok none, for_later))
    ⊎ (apply_request by_one clock "q" handler for_later ≡ (raise (lease_lost "r"), for_later))
unfolding Dict.get
apply_request-foreign_example =
    apply_request-foreign by_one clock handler "q" (record row_asked { generation = 2 }) for_later
      refl (inr (inr (inr (inr (λ e. ground arith)))))

-- `two` takes the tree, and the request is sent to it
abbrev sent_to_two : List Step
sent_to_two = acquires "two" 20 20 20 "r" ∷ requests 21 envelope by_two ∷ []

acquire_free_example :
    (o : Ownership) × (db : Database) × (acquire "two" 20 20 20 "r" owned ≡ (ok (some o), db))
    × (holds 39 o (Dict.get db.roots "r") ≡ true)
unfolding Dict.get Dict.put Dict.remove
acquire_free_example = acquire_free "two" 20 20 20 39 "r" owned refl refl (ground arith)

abbrev taken_by_two : Database
unfolding acquire take_over
taken_by_two = (acquire "two" 20 20 20 "r" owned).1

acquire-taken_by_two : acquire "two" 20 20 20 "r" owned ≡ (ok (some by_two), taken_by_two)
unfolding acquire take_over taken_by_two Dict.get Dict.put Dict.remove
acquire-taken_by_two = refl

acquire_after_expiry_example : (20 ≤ 20) × (by_two.generation ≡ 2)
unfolding Dict.get Dict.put Dict.remove
acquire_after_expiry_example =
    acquire_after_expiry "two" "one" 20 20 20 "r" owned taken_by_two row_of_one 20 by_two
      acquire-taken_by_two refl refl (λ e. ground (arith, eq_iff "one" "two")) refl

-- `one` writes, `two` takes the tree and writes
abbrev both : World
both = perform same_request (transacts 21 by_two (claims 22 "d" ∷ [])) (
    perform same_request (acquires "two" 20 20 20 "r") (
      perform same_request (transacts 1 by_one (claims 2 "c" ∷ []))
        (perform same_request (acquires "one" 20 0 0 "r") (record { db = no_rows; writes = [] }))))

Reach-both : Reach same_request no_rows both
Reach-both =
    goes_on
      (goes_on
        (goes_on (goes_on begins (acquires "one" 20 0 0 "r"))
          (transacts 1 by_one (claims 2 "c" ∷ [])))
        (acquires "two" 20 20 20 "r"))
      (transacts 21 by_two (claims 22 "d" ∷ []))

AreFenced-writes_example : AreFenced both.writes
AreFenced-writes_example = AreFenced-writes same_request Reach-both

-- and both transactions commit
both-writes :
    both.writes
    ≡ record { root = "r"; instance = "two"; generation = 2 }
      ∷ record { root = "r"; instance = "one"; generation = 1 }
      ∷ []
unfolding acquire take_over transact claim_writer change Dict.get Dict.put Dict.remove
both-writes = refl

-- ===== src/Coordinator/Requests.antt =====
-- Requests of other processes to the owner of a tree, kept in the table `coordinator_requests`. A
-- request is compared by its stored JSON: `same_envelope` is that comparison.
use tantra.Prelude.{
  ℕ, String, Bool, true, ◌&&◌, ◌||◌, not, Option, none, some, List, ◌==◌, has, if◌then◌else◌,
  is_some, ltb, take, filter,
}
use tantra.Prelude.Dict
use tantra.Prelude.Dict.{Dict}
use tantra.Prelude.Outcome.{
  ok, raise, session_not_found, lease_lost, invalid_command_reuse, value_error,
}
use tantra.Coordinator.{Ownership, CommandEnvelope, CommandReply, request_change, error_status}
use tantra.Coordinator.Database.{Database, RequestRow, ChangeNotice, holds, publish}
use tantra.Coordinator.Transaction.{
  Tx, ◌>>=◌, ◌>>◌, pure, fail, transact, lock_request, reply, finish_deletion,
}

-- the row that is inserted, or the one that was there with the new destination
abbrev pub addressed : CommandEnvelope → Ownership → RequestRow
addressed e o = record {
  root_id = e.root_id;
  instance = o.instance_id;
  generation = o.generation;
  envelope = e;
  reply = none;
}

abbrev pub set_request : String → RequestRow → Database → Database
set_request id row db = record db { requests = Dict.put db.requests id row }

module _ (same_envelope : CommandEnvelope → CommandEnvelope → Bool) where
  unfoldable pub put_request : ℕ → CommandEnvelope → Ownership → Tx (Unit {0})
  put_request now e o db =
      if has db.deleted e.root_id
      then (raise (session_not_found (some e.root_id)), db)
      else if not (holds now o (Dict.get db.roots e.root_id))
      then (raise (lease_lost e.root_id), db)
      else elim (Dict.get db.requests e.request_id) [
        | none ↦ (
          ok tt,
          publish e.root_id request_change none none (set_request e.request_id (addressed e o) db),
        )
        | some row ↦
            if not (row.root_id == e.root_id) || not (same_envelope row.envelope e)
            then (raise (invalid_command_reuse e.request_id), db)
            else if is_some row.reply
            then (ok tt, db)
            else (
              ok tt,
              publish e.root_id request_change none none (
                  set_request e.request_id
                    (record row { instance = o.instance_id; generation = o.generation }) db),
            )
      ]

unfoldable pub request_reply : String → Database → Option CommandReply
request_reply id db = elim (Dict.get db.requests id) [ none ↦ none | some row ↦ row.reply ]

-- `_changes`, of which there are at most a thousand
unfoldable pub changes_after : String → ℕ → Database → List ChangeNotice
changes_after root after db =
    take 1000 (filter (λ c. c.root_id == root && ltb after c.change_id) db.changes)

unfoldable pub end_deletion : Ownership → ℕ → Bool → Tx (Unit {0})
unfolding finish_deletion
end_deletion o now deletes = if deletes then finish_deletion o now else pure tt

-- what `_apply_request` does with the answer; `deletes` says whether sessions were deleted
unfoldable pub settle :
    Ownership → (ℕ → ℕ) → CommandEnvelope → CommandReply × Bool → Tx (Option CommandReply)
unfolding reply end_deletion
settle o clock e (answer, deletes) =
    if answer.request_id == e.request_id
    then (reply o (clock 3) answer >> (end_deletion o (clock 4) deletes >> pure (some answer)))
    else fail value_error

unfoldable pub answer_locked :
    Ownership
    → (ℕ → ℕ)
    → (CommandEnvelope → Tx (CommandReply × Bool))
    → Option CommandEnvelope
    → Tx (Option CommandReply)
unfolding settle
answer_locked o clock operation none = pure none
answer_locked o clock operation (some e) = operation e >>= settle o clock e

-- `_apply_request`; `clock` gives the transaction's readings of the clock in turn.
unfoldable pub apply_request :
    Ownership
    → (ℕ → ℕ)
    → String
    → (CommandEnvelope → Tx (CommandReply × Bool))
    → Tx (Option CommandReply)
unfolding transact lock_request answer_locked
apply_request o clock request_id operation =
    transact o (clock 0)
      (lock_request o (clock 1) (clock 2) request_id >>= answer_locked o clock operation)

abbrev pub failed_reply : String → CommandReply
failed_reply id = record {
  request_id = id;
  status = error_status;
  result = none;
  error_code = some "coordinator_handler_failed";
  message = some "owner could not apply the request";
  retryable = true;
}

-- `_infrastructure_reply`, which swallows what is raised
unfoldable pub infrastructure_reply : Ownership → (ℕ → ℕ) → String → Database → Database
unfolding transact lock_request reply
infrastructure_reply o clock request_id db =
    (transact o (clock 0)
      (do
        locked ← lock_request o (clock 1) (clock 2) request_id
        elim locked [ none ↦ pure tt | some _ ↦ reply o (clock 3) (failed_reply request_id) ])
      db).1

-- ===== src/Coordinator/Transaction.antt =====
-- `CoordinatedStore` inside its transaction. A statement is a function of the database; where one
-- raises, the exception leaves the transaction and everything is rolled back. Each statement that
-- checks the lease (`_assert_fence`, `change`) has its own reading of the clock.
use tantra.Prelude.{
  ℕ, suc, String, Bool, true, false, ◌&&◌, not, Option, none, some, [], ◌==◌, if◌then◌else◌,
  is_text, is_some, eqb,
}
use tantra.Prelude.Dict
use tantra.Prelude.Dict.{Dict}
use tantra.Prelude.Outcome.{ok, raise, lease_lost, writer_replaced}
pub use tantra.Prelude.Stateful.{◌>>=◌, ◌>>◌, pure, fail}
use tantra.Prelude.Stateful.{Does}
use tantra.Json.{Json}
use tantra.Coordinator.{
  Ownership, WriterToken, CommandEnvelope, CommandReply, ChangeKind, writer_change, activity_change,
  recovery_change, request_change, ownership_change, deleted_change,
}
use tantra.Coordinator.Database.{
  Database, RootRow, RequestRow, holds, update_root, publish, unlease, is_open,
}

abbrev pub Tx : Type 0 → Type 0
Tx = Does Database

module _ (o : Ownership) where
  -- `_TransactionContext`: the body runs while the lease holds, and its end is the commit.
  unfoldable pub transact : {A : Type 0} → ℕ → Tx A → Tx A
  transact now body db =
      if holds now o (Dict.get db.roots o.root_id)
      then (let (r, db') = body db in elim r [ ok a ↦ (ok a, db') | raise x ↦ (raise x, db) ])
      else (raise (lease_lost o.root_id), db)

  -- `_assert_fence`
  unfoldable pub assert_fence : ℕ → Tx (Unit {0})
  assert_fence now db =
      if holds now o (Dict.get db.roots o.root_id)
      then (ok tt, db)
      else (raise (lease_lost o.root_id), db)

  -- `change`, which inserts its row only while the lease holds
  unfoldable pub change : ℕ → ChangeKind → Option String → Option ℕ → Tx ℕ
  change now kind actor seq db =
      if holds now o (Dict.get db.roots o.root_id)
      then (ok (suc db.last_change), publish o.root_id kind actor seq db)
      else (raise (lease_lost o.root_id), db)

  abbrev pub on_root : (RootRow → RootRow) → Tx (Unit {0})
  on_root f db = (ok tt, update_root o.root_id f db)

  unfoldable pub claim_writer : ℕ → String → Tx WriterToken
  unfolding change
  claim_writer now connection = do
    on_root (λ row. record row { writer = some connection })
    _ ← change now writer_change none none
    pure (record { root_id = o.root_id; connection_id = connection })

  abbrev pub writer_is : String → Option RootRow → Bool
  writer_is connection none = false
  writer_is connection (some row) = is_text row.writer connection

  unfoldable pub release_writer : ℕ → ℕ → WriterToken → Tx Bool
  unfolding assert_fence change
  release_writer now later token = do
    assert_fence now
    λ db.
        if token.root_id == o.root_id
          && writer_is token.connection_id (Dict.get db.roots token.root_id)
        then (do
          on_root (λ row. record row { writer = none })
          _ ← change later writer_change none none
          pure true)
            db
        else (ok false, db)

  unfoldable pub validate_writer : ℕ → WriterToken → Tx (Unit {0})
  unfolding assert_fence
  validate_writer now token = do
    assert_fence now
    λ db.
        if token.root_id == o.root_id
          && writer_is token.connection_id (Dict.get db.roots token.root_id)
        then (ok tt, db)
        else (raise (writer_replaced token.root_id), db)

  abbrev pub set_activity : String → Bool → Database → Database
  set_activity actor active db = record db {
    activity =
        Dict.put db.activity o.root_id
          (Dict.put (Dict.get_or db.activity o.root_id []) actor active);
  }

  abbrev pub note_activity : String → Bool → Tx (Unit {0})
  note_activity actor active db = (ok tt, set_activity actor active db)

  -- `_publish` at the end of a transaction
  abbrev pub notice : ChangeKind → Tx (Unit {0})
  notice kind db = (ok tt, publish o.root_id kind none none db)

  unfoldable pub set_active : ℕ → String → Bool → Tx (Unit {0})
  unfolding change
  set_active now actor active = do
    note_activity actor active
    _ ← change now activity_change (some actor) none
    pure tt

  unfoldable pub recovery : ℕ → Tx (Dict Json)
  unfolding assert_fence
  recovery now = do
    assert_fence now
    λ db. elim (Dict.get db.roots o.root_id) [
      | none ↦ (raise (lease_lost o.root_id), db)
      | some row ↦ (ok row.recovery, db)
    ]

  unfoldable pub set_recovery : ℕ → Dict Json → Tx (Unit {0})
  unfolding change
  set_recovery now state = do
    on_root (λ row. record row { recovery = state })
    _ ← change now recovery_change none none
    pure tt

  -- the request waits for an answer of this owner
  abbrev pub is_mine : RequestRow → Bool
  is_mine row =
      row.root_id == o.root_id && row.instance == o.instance_id && eqb row.generation o.generation

  abbrev pub find_request : ℕ → String → Tx (Option CommandEnvelope)
  find_request later request_id db = elim (Dict.get db.requests request_id) [
    | none ↦ (ok none, db)
    | some row ↦
        if is_open later o.root_id (request_id, row) && is_mine row
        then (ok (some row.envelope), db)
        else (ok none, db)
  ]

  -- The readings are those of the fence and of the deadline.
  unfoldable pub lock_request : ℕ → ℕ → String → Tx (Option CommandEnvelope)
  unfolding assert_fence
  lock_request now later request_id = assert_fence now >> find_request later request_id

  abbrev pub record_reply : CommandReply → Tx (Unit {0})
  record_reply answer db = elim (Dict.get db.requests answer.request_id) [
    | none ↦ (raise (lease_lost o.root_id), db)
    | some row ↦
        if is_mine row && not (is_some row.reply)
        then (
          ok tt,
          record db {
            requests = Dict.put db.requests answer.request_id (record row { reply = some answer });
          },
        )
        else (raise (lease_lost o.root_id), db)
  ]

  unfoldable pub reply : ℕ → CommandReply → Tx (Unit {0})
  unfolding change
  reply now answer = record_reply answer >> (change now request_change none none >>= λ _. pure tt)

  unfoldable pub finish_deletion : ℕ → Tx (Unit {0})
  unfolding assert_fence
  finish_deletion now = do
    assert_fence now
    on_root (λ row. record row {
      owner = none;
      expires_at = none;
      writer = none;
      recovery = [];
      generation = suc row.generation;
    })
    notice deleted_change

  unfoldable pub relinquish_unrecovered : ℕ → Tx (Unit {0})
  unfolding assert_fence
  relinquish_unrecovered now = do assert_fence now; on_root unlease; notice ownership_change

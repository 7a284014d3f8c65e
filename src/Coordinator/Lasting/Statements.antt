-- ===== src/Coordinator/Lasting/Statements.antt =====
-- Every step, by whatever instance, keeps the requests and their replies.
use tantra.Prelude.{
  ℕ, suc, String, ◌≡◌, refl, Bool, true, false, ◌&&◌, not, inl, inr, Option, none, some, List, [],
  ◌∷◌, arith, ◌==◌, Bool-cases, Option-cases, is_some, if◌then◌else◌,
}
use tantra.Prelude.Dict
use tantra.Prelude.Dict.{Dict, get-put, get-put_self}
use tantra.Prelude.Outcome.{Outcome-cases, writer_replaced}
use tantra.Coordinator.{
  Ownership, CommandEnvelope, CommandReply, ChangeKind, WriterToken, request_change, writer_change,
  activity_change, recovery_change, deleted_change, ownership_change,
}
use tantra.Coordinator.Database.{Database, RootRow, holds, unlease}
use tantra.Coordinator.Transaction.{
  Tx, fail, ◌>>=◌, ◌>>◌, pure, transact, assert_fence, change, on_root, claim_writer,
  release_writer, validate_writer, set_active, set_recovery, reply, finish_deletion,
  relinquish_unrecovered, record_reply, is_mine, note_activity, notice, writer_is,
}
use tantra.Coordinator.System.{
  Statement, claims, drops_writer, validates, activates, notes_recovery, replies, finishes_deletion,
  relinquishes, execute, execute_all, Step, acquires, renews, releases, gives_up, requests,
  transacts, World, perform, perform_all, commit,
}
use tantra.Coordinator.Lasting.{
  Lasts, Lasts-refl, Lasts-same, Lasts-trans, Lasts-put, unanswered, put_request-Lasts,
  acquire-requests, renew-requests, release-requests, relinquish_failed_prestart-requests,
}

record_reply-Lasts :
    (o : Ownership) (answer : CommandReply) (db : Database)
    → Lasts db.requests (record_reply o answer db).1.requests
record_reply-Lasts o answer db = elim (Option-cases (Dict.get db.requests answer.request_id)) [
  | inl p ↦ rw (p, record_reply) (Lasts-refl db.requests)
  | inr (row, p) ↦ elim (Bool-cases (is_mine o row && not (is_some row.reply))) [
    | inr q ↦ rw (p, record_reply) (rw q (Lasts-refl db.requests))
    | inl q ↦
        let fresh : is_some row.reply ≡ false = ground arith in
        rw (p, record_reply)
          (rw q (
            Lasts-put db.requests answer.request_id row (record row { reply = some answer }) p
              (refl, refl, inl (unanswered row.reply fresh))))
  ]
]

record LastsAll {A : Type 0} (m : Tx A) : Type 0 where
  after : (db : Database) → Lasts db.requests (m db).1.requests

LastsAll-same :
    {A : Type 0} (m : Tx A) → ((db : Database) → (m db).1.requests ≡ db.requests) → LastsAll m
LastsAll-same m h = record { after = λ db. Lasts-same (h db) }

LastsAll-bind :
    {A B : Type 0} (m : Tx A) (f : A → Tx B)
    → LastsAll m
    → ((a : A) → LastsAll (f a))
    → LastsAll (m >>= f)
LastsAll-bind m f h k = record {
  after = λ db. elim (Outcome-cases (m db).0) [
    | inl (a, p) ↦ rw (p, ◌>>=◌) (Lasts-trans (h.after db) ((k a).after (m db).1))
    | inr (x, p) ↦ rw (p, ◌>>=◌) (h.after db)
  ];
}

module _ (o : Ownership) where
  -- a statement that ends with a notice
  LastsAll-noticed :
      {A : Type 0} (m : Tx (Unit {0})) (now : ℕ) (kind : ChangeKind) (actor : Option String) (a : A)
      → LastsAll m
      → LastsAll (m >> (change o now kind actor none >>= λ _. pure a))
  unfolding change
  LastsAll-noticed m now kind actor a h =
      LastsAll-bind m (λ _. change o now kind actor none >>= λ _. pure a) h
        (λ _.
          LastsAll-bind (change o now kind actor none) (λ _. pure a)
            (LastsAll-same _ (λ db. ground arith)) (λ _. LastsAll-same (pure a) (λ db. refl)))

  LastsAll-on_root : (f : RootRow → RootRow) → LastsAll (on_root o f)
  LastsAll-on_root f = LastsAll-same (on_root o f) (λ db. ground arith)

  -- a statement under the fence
  LastsAll-fenced :
      {A : Type 0} (now : ℕ) (m : Tx A) → LastsAll m → LastsAll (assert_fence o now >> m)
  unfolding assert_fence
  LastsAll-fenced now m h =
      LastsAll-bind (assert_fence o now) (λ _. m) (LastsAll-same _ (λ db. ground arith)) (λ _. h)

  LastsAll-if :
      {A : Type 0} (test : Database → Bool) (m n : Tx A)
      → LastsAll m
      → LastsAll n
      → LastsAll (λ db. if test db then m db else n db)
  LastsAll-if test m n h k = record {
    after =
        λ db. elim (Bool-cases (test db)) [ inl p ↦ rw p (h.after db) | inr p ↦ rw p (k.after db) ];
  }

  abbrev is_writer : WriterToken → Database → Bool
  is_writer token db =
      token.root_id == o.root_id
      && writer_is o token.connection_id (Dict.get db.roots token.root_id)

  execute-Lasts : (s : Statement) → LastsAll (execute o s)
  unfolding reply claim_writer release_writer validate_writer set_active set_recovery
      finish_deletion relinquish_unrecovered
  execute-Lasts (claims now connection) =
      LastsAll-bind (claim_writer o now connection) (λ _. pure tt)
        (LastsAll-noticed (on_root o (λ row. record row { writer = some connection })) now
          writer_change none (record { root_id = o.root_id; connection_id = connection })
          (LastsAll-on_root _))
        (λ _. LastsAll-same _ (λ db. refl))
  execute-Lasts (drops_writer now later token) =
      LastsAll-bind (release_writer o now later token) (λ _. pure tt)
        (LastsAll-fenced now _ (
          LastsAll-if (is_writer token)
            (on_root o (λ row. record row { writer = none })
              >> (change o later writer_change none none >>= λ _. pure true))
            (pure false) (LastsAll-noticed _ later writer_change none true (LastsAll-on_root _))
            (LastsAll-same (pure false) (λ db. refl))))
        (λ _. LastsAll-same _ (λ db. refl))
  execute-Lasts (validates now token) = LastsAll-fenced now _ (
      LastsAll-if (is_writer token) (pure tt) (fail (writer_replaced token.root_id))
        (LastsAll-same (pure tt) (λ db. refl)) (LastsAll-same (fail _) (λ db. refl)))
  execute-Lasts (activates now actor active) =
      LastsAll-noticed (note_activity o actor active) now activity_change (some actor) tt
        (LastsAll-same _ (λ db. refl))
  execute-Lasts (notes_recovery now state) =
      LastsAll-noticed (on_root o (λ row. record row { recovery = state })) now recovery_change none
        tt (LastsAll-on_root _)
  execute-Lasts (replies now answer) =
      LastsAll-noticed (record_reply o answer) now request_change none tt
        (record { after = record_reply-Lasts o answer })
  execute-Lasts (finishes_deletion now) = LastsAll-fenced now _ (
      LastsAll-bind
        (on_root o (λ row. record row {
          owner = none;
          expires_at = none;
          writer = none;
          recovery = [];
          generation = suc row.generation;
        }))
        (λ _. notice o deleted_change) (LastsAll-on_root _) (λ _. LastsAll-same _ (λ db. refl)))
  execute-Lasts (relinquishes now) = LastsAll-fenced now _ (
      LastsAll-bind (on_root o unlease) (λ _. notice o ownership_change) (LastsAll-on_root _)
        (λ _. LastsAll-same _ (λ db. refl)))

  execute_all-Lasts : (ss : List Statement) → LastsAll (execute_all o ss)
  execute_all-Lasts [] = LastsAll-same (pure tt) (λ db. refl)
  execute_all-Lasts (s ∷ ss) =
      LastsAll-bind (execute o s) (λ _. execute_all o ss) (execute-Lasts s)
        (λ _. execute_all-Lasts ss)

  commit-Lasts :
      (now : ℕ) (ss : List Statement) (w : World)
      → Lasts w.db.requests (commit o (transact o now (execute_all o ss) w.db) w.writes).db.requests
  unfolding transact
  commit-Lasts now ss w = elim (Bool-cases (holds now o (Dict.get w.db.roots o.root_id))) [
    | inr p ↦ rw (p, transact) (Lasts-refl w.db.requests)
    | inl p ↦ elim (Outcome-cases (execute_all o ss w.db).0) [
      | inr (x, q) ↦ rw (p, transact) (rw q (Lasts-refl w.db.requests))
      | inl (_, q) ↦ rw (p, transact) (rw q ((execute_all-Lasts ss).after w.db))
    ]
  ]

module _ (same_envelope : CommandEnvelope → CommandEnvelope → Bool) where
  perform-Lasts :
      (s : Step) (w : World) → Lasts w.db.requests (perform same_envelope s w).db.requests
  perform-Lasts (acquires instance ttl now later root) w =
      Lasts-same (acquire-requests instance ttl now later root w.db)
  perform-Lasts (renews ttl now later o) w = Lasts-same (renew-requests ttl now later o w.db)
  perform-Lasts (releases now work_now later o) w =
      Lasts-same (release-requests now work_now later o w.db)
  perform-Lasts (gives_up now work_now later o actor) w =
      Lasts-same (relinquish_failed_prestart-requests now work_now later o actor w.db)
  perform-Lasts (requests now e o) w = put_request-Lasts same_envelope now e o w.db
  perform-Lasts (transacts now o ss) w = commit-Lasts o now ss w

  pub perform_all-Lasts :
      (ss : List Step) (w : World)
      → Lasts w.db.requests (perform_all same_envelope ss w).db.requests
  perform_all-Lasts [] w = Lasts-refl w.db.requests
  perform_all-Lasts (s ∷ ss) w =
      Lasts-trans (perform-Lasts s w) (perform_all-Lasts ss (perform same_envelope s w))

-- ===== src/Coordinator/Fencing/Statements.antt =====
-- The statements of a transaction under the fence.
use tantra.Prelude.{
  ℕ, suc, String, refl, Bool, true, false, ◌&&◌, not, inl, inr, Option, none, some, List, [], ◌∷◌,
  ◌==◌, arith, Bool-cases, Option-cases, if◌then◌else◌, is_some,
}
use tantra.Prelude.Dict
use tantra.Prelude.Dict.{Dict, get-put, get-put_self}
use tantra.Prelude.Outcome.{Error, Outcome-cases, writer_replaced}
use tantra.Coordinator.{
  Ownership, ChangeKind, CommandReply, request_change, writer_change, activity_change,
  recovery_change, deleted_change, ownership_change,
}
use tantra.Coordinator.Database.{Database, RootRow, holds, unlease}
use tantra.Coordinator.Transaction.{
  record_reply, Tx, note_activity, notice, is_mine, writer_is, fail, ◌>>=◌, ◌>>◌, pure, on_root,
  assert_fence, change, claim_writer, release_writer, validate_writer, set_active, set_recovery,
  reply, finish_deletion, relinquish_unrecovered,
}
use tantra.Coordinator.System.{
  Statement, claims, drops_writer, validates, activates, notes_recovery, replies, finishes_deletion,
  relinquishes, execute, execute_all,
}
use tantra.Coordinator.Fencing.Rows.{Grows, Keeps, Keeps-refl, Keeps-trans, update_root-Keeps}

pub record KeepsRoots {A : Type 0} (m : Tx A) : Type 0 where
  pub after : (db : Database) → Keeps db.roots (m db).1.roots

pub KeepsRoots-bind :
    {A B : Type 0} (m : Tx A) (f : A → Tx B)
    → KeepsRoots m
    → ((a : A) → KeepsRoots (f a))
    → KeepsRoots (m >>= f)
KeepsRoots-bind m f h k = record {
  after = λ db. elim (Outcome-cases (m db).0) [
    | inl (a, p) ↦ rw (p, ◌>>=◌) (Keeps-trans (h.after db) ((k a).after (m db).1))
    | inr (x, p) ↦ rw (p, ◌>>=◌) (h.after db)
  ];
}

pub KeepsRoots-pure : {A : Type 0} (a : A) → KeepsRoots (pure a)
KeepsRoots-pure a = record { after = λ db. Keeps-refl db.roots }

module _ (o : Ownership) where
  pub KeepsRoots-on_root :
      (f : RootRow → RootRow) → ((row : RootRow) → Grows row (f row)) → KeepsRoots (on_root o f)
  KeepsRoots-on_root f g = record { after = λ db. update_root-Keeps db o.root_id f g }

  pub KeepsRoots-assert_fence : (now : ℕ) → KeepsRoots (assert_fence o now)
  unfolding assert_fence
  KeepsRoots-assert_fence now = record {
    after = λ db. elim (Bool-cases (holds now o (Dict.get db.roots o.root_id))) [
      | inl p ↦ rw (p, assert_fence) (Keeps-refl db.roots)
      | inr p ↦ rw (p, assert_fence) (Keeps-refl db.roots)
    ];
  }

  pub KeepsRoots-change :
      (now : ℕ) (kind : ChangeKind) (actor : Option String) (seq : Option ℕ)
      → KeepsRoots (change o now kind actor seq)
  unfolding change
  KeepsRoots-change now kind actor seq = record {
    after = λ db. elim (Bool-cases (holds now o (Dict.get db.roots o.root_id))) [
      | inl p ↦ rw (p, change) (Keeps-refl db.roots)
      | inr p ↦ rw (p, change) (Keeps-refl db.roots)
    ];
  }

  -- a statement that ends with a notice
  pub KeepsRoots-noticed :
      {A : Type 0} (m : Tx (Unit {0})) (now : ℕ) (kind : ChangeKind) (actor : Option String) (a : A)
      → KeepsRoots m
      → KeepsRoots (m >> (change o now kind actor none >>= λ _. pure a))
  KeepsRoots-noticed m now kind actor a h =
      KeepsRoots-bind m (λ _. change o now kind actor none >>= λ _. pure a) h
        (λ _.
          KeepsRoots-bind (change o now kind actor none) (λ _. pure a)
            (KeepsRoots-change now kind actor none) (λ _. KeepsRoots-pure a))

  -- a statement under the fence
  pub KeepsRoots-fenced :
      {A : Type 0} (now : ℕ) (m : Tx A) → KeepsRoots m → KeepsRoots (assert_fence o now >> m)
  KeepsRoots-fenced now m h =
      KeepsRoots-bind (assert_fence o now) (λ _. m) (KeepsRoots-assert_fence now) (λ _. h)

  pub KeepsRoots-if :
      {A : Type 0} (test : Database → Bool) (m n : Tx A)
      → KeepsRoots m
      → KeepsRoots n
      → KeepsRoots (λ db. if test db then m db else n db)
  KeepsRoots-if test m n h k = record {
    after =
        λ db. elim (Bool-cases (test db)) [ inl p ↦ rw p (h.after db) | inr p ↦ rw p (k.after db) ];
  }

  pub KeepsRoots-fail : {A : Type 0} (x : Error) → KeepsRoots (fail {A = A} x)
  KeepsRoots-fail x = record { after = λ db. Keeps-refl db.roots }

  pub reply-KeepsRoots : (now : ℕ) (answer : CommandReply) → KeepsRoots (reply o now answer)
  unfolding reply
  reply-KeepsRoots now answer = KeepsRoots-noticed _ now request_change none tt (record {
    after = λ db. elim (Option-cases (Dict.get db.requests answer.request_id)) [
      | inl p ↦ rw (p, record_reply) (Keeps-refl db.roots)
      | inr (row, p) ↦
          rw (p, record_reply)
            (elim (Bool-cases (is_mine o row && not (is_some row.reply))) [
              | inl q ↦ rw q (Keeps-refl db.roots)
              | inr q ↦ rw q (Keeps-refl db.roots)
            ])
    ];
  })

  pub execute-KeepsRoots : (s : Statement) → KeepsRoots (execute o s)
  unfolding claim_writer release_writer validate_writer set_active set_recovery finish_deletion
      relinquish_unrecovered
  execute-KeepsRoots (claims now connection) =
      KeepsRoots-bind (claim_writer o now connection) (λ _. pure tt)
        (KeepsRoots-noticed (on_root o (λ row. record row { writer = some connection })) now
          writer_change none (record { root_id = o.root_id; connection_id = connection })
          (KeepsRoots-on_root _ (λ row. inr (refl, inr refl))))
        (λ _. KeepsRoots-pure tt)
  execute-KeepsRoots (drops_writer now later token) =
      KeepsRoots-bind (release_writer o now later token) (λ _. pure tt)
        (KeepsRoots-fenced now _ (
          KeepsRoots-if
            (λ db.
              token.root_id == o.root_id
              && writer_is o token.connection_id (Dict.get db.roots token.root_id))
            (on_root o (λ row. record row { writer = none })
              >> (change o later writer_change none none >>= λ _. pure true))
            (pure false)
            (KeepsRoots-noticed _ later writer_change none true
              (KeepsRoots-on_root _ (λ row. inr (refl, inr refl))))
            (KeepsRoots-pure false)))
        (λ _. KeepsRoots-pure tt)
  execute-KeepsRoots (validates now token) = KeepsRoots-fenced now _ (
      KeepsRoots-if
        (λ db.
          token.root_id == o.root_id
          && writer_is o token.connection_id (Dict.get db.roots token.root_id))
        (pure tt) (fail (writer_replaced token.root_id)) (KeepsRoots-pure tt) (KeepsRoots-fail _))
  execute-KeepsRoots (activates now actor active) =
      KeepsRoots-noticed (note_activity o actor active) now activity_change (some actor) tt
        (record { after = λ db. Keeps-refl db.roots })
  execute-KeepsRoots (notes_recovery now state) =
      KeepsRoots-noticed _ now recovery_change none tt
        (KeepsRoots-on_root (λ row. record row { recovery = state }) (λ row. inr (refl, inr refl)))
  execute-KeepsRoots (replies now answer) = reply-KeepsRoots now answer
  execute-KeepsRoots (finishes_deletion now) = KeepsRoots-fenced now _ (
      KeepsRoots-bind
        (on_root o (λ row. record row {
          owner = none;
          expires_at = none;
          writer = none;
          recovery = [];
          generation = suc row.generation;
        }))
        (λ _. notice o deleted_change) (KeepsRoots-on_root _ (λ row. inl (omega arith)))
        (λ _. record { after = λ db. Keeps-refl db.roots }))
  execute-KeepsRoots (relinquishes now) = KeepsRoots-fenced now _ (
      KeepsRoots-bind (on_root o unlease) (λ _. notice o ownership_change)
        (KeepsRoots-on_root _ (λ row. inr (refl, inl refl)))
        (λ _. record { after = λ db. Keeps-refl db.roots }))

  pub execute_all-KeepsRoots : (ss : List Statement) → KeepsRoots (execute_all o ss)
  execute_all-KeepsRoots [] = KeepsRoots-pure tt
  execute_all-KeepsRoots (s ∷ ss) =
      KeepsRoots-bind (execute o s) (λ _. execute_all o ss) (execute-KeepsRoots s)
        (λ _. execute_all-KeepsRoots ss)

-- ===== src/Coordinator/Replies.antt =====
-- A request is applied by the owner that it is addressed to, and no more once it has its reply.
use tantra.Prelude.{
  ℕ, String, ◌≡◌, refl, ap, sym, ◌∙◌, subst, Bool, true, false, ◌&&◌, not, inl, inr, Option, none,
  some, arith, ◌==◌, Bool-cases, Option-cases, is_some, ◌⊎◌, ◌≢◌, ◌≤◌, eq_iff,
}
use tantra.Prelude.Dict
use tantra.Prelude.Dict.{Dict, get-put, get-put_self}
use tantra.Prelude.Outcome.{Outcome, ok, raise, lease_lost}
use tantra.Coordinator.{request_change, Ownership, CommandEnvelope, CommandReply}
use tantra.Coordinator.Database.{Database, RequestRow, holds, is_open}
use tantra.Coordinator.Transaction.{
  Tx, ◌>>=◌, ◌>>◌, pure, assert_fence, lock_request, find_request, record_reply, reply, change,
  is_mine, finish_deletion,
}
use tantra.Coordinator.Running.{
  bind-ok, bind-raise, bind-inverse, ending-ok, ending, transact-held, transact-lost, fenced-held,
  fenced-lost,
}
use tantra.Coordinator.Requests.{apply_request, answer_locked, end_deletion, request_reply, settle}

-- The owner would find the request: it is open, and addressed to this instance and generation.
abbrev pub is_for : ℕ → Ownership → String → Option RequestRow → Bool
is_for now o id none = false
is_for now o id (some row) = is_open now o.root_id (id, row) && is_mine o row

lock_request-foreign :
    (o : Ownership) (now later : ℕ) (id : String) (db : Database)
    → holds now o (Dict.get db.roots o.root_id) ≡ true
    → is_for later o id (Dict.get db.requests id) ≡ false
    → lock_request o now later id db ≡ (ok none, db)
unfolding lock_request
lock_request-foreign o now later id db h f =
    fenced-held o now (find_request o later id) db h
    ∙ elim (Option-cases (Dict.get db.requests id)) [
      | inl p ↦ rw (p, find_request) refl
      | inr (row, p) ↦
          let q : is_for later o id (some row) ≡ false =
            subst (λ r. is_for later o id r ≡ false) p f in
          rw (p, find_request) (rw q refl)
    ]

lock_request-lost :
    (o : Ownership) (now later : ℕ) (id : String) (db : Database)
    → holds now o (Dict.get db.roots o.root_id) ≡ false
    → lock_request o now later id db ≡ (raise (lease_lost o.root_id), db)
unfolding lock_request
lock_request-lost o now later id db h = fenced-lost o now (find_request o later id) db h

elsewhere :
    (now : ℕ) (o : Ownership) (id : String) (row : RequestRow)
    → (is_some row.reply ≡ true)
      ⊎ ((row.envelope.deadline ≤ now)
          ⊎ ((row.root_id ≢ o.root_id)
              ⊎ ((row.instance ≢ o.instance_id) ⊎ (row.generation ≢ o.generation))))
    → is_for now o id (some row) ≡ false
elsewhere now o id row w = grind (arith, eq_iff)

module _ (o : Ownership) (clock : ℕ → ℕ)
    (operation : CommandEnvelope → Tx (CommandReply × Bool)) where
  -- the transaction's body
  abbrev body : String → Tx (Option CommandReply)
  body id = lock_request o (clock 1) (clock 2) id >>= answer_locked o clock operation

  ignored :
      (id : String) (db : Database)
      → is_for (clock 2) o id (Dict.get db.requests id) ≡ false
      → (apply_request o clock id operation db ≡ (ok none, db))
        ⊎ (apply_request o clock id operation db ≡ (raise (lease_lost o.root_id), db))
  unfolding apply_request
  ignored id db f = elim (Bool-cases (holds (clock 0) o (Dict.get db.roots o.root_id))) [
    | inr p ↦ inr (transact-lost o (clock 0) (body id) db p)
    | inl p ↦ elim (Bool-cases (holds (clock 1) o (Dict.get db.roots o.root_id))) [
      | inr q ↦ inr (
          transact-held o (clock 0) (body id) db p
          ∙ ap (ending db) (
              bind-raise (lock_request o (clock 1) (clock 2) id) (answer_locked o clock operation)
                db db (lease_lost o.root_id) (lock_request-lost o (clock 1) (clock 2) id db q)))
      | inl q ↦ inl (
          transact-held o (clock 0) (body id) db p
          ∙ ap (ending db) (
              bind-ok (lock_request o (clock 1) (clock 2) id) (answer_locked o clock operation) db
                db none (lock_request-foreign o (clock 1) (clock 2) id db q f)))
    ]
  ]

  -- A request that has its reply, whose deadline is over, or that was put for another tree, another
  -- instance or another generation is not applied: there is no answer, or the lease was lost, and in
  -- both cases the database is as it was.
  pub apply_request-foreign :
      (id : String) (row : RequestRow) (db : Database)
      → Dict.get db.requests id ≡ some row
      → (is_some row.reply ≡ true)
        ⊎ ((row.envelope.deadline ≤ clock 2)
            ⊎ ((row.root_id ≢ o.root_id)
                ⊎ ((row.instance ≢ o.instance_id) ⊎ (row.generation ≢ o.generation))))
      → (apply_request o clock id operation db ≡ (ok none, db))
        ⊎ (apply_request o clock id operation db ≡ (raise (lease_lost o.root_id), db))
  apply_request-foreign id row db g w =
      ignored id db
        (subst (λ r. is_for (clock 2) o id r ≡ false) (sym g) (elsewhere (clock 2) o id row w))

record_reply-request_reply :
    (o : Ownership) (answer : CommandReply) (db db' : Database)
    → record_reply o answer db ≡ (ok tt, db')
    → request_reply answer.request_id db' ≡ some answer
unfolding request_reply
record_reply-request_reply o answer db db' h =
    elim (Option-cases (Dict.get db.requests answer.request_id)) [
      | inl p ↦ absurd (ground arith)
      | inr (row, p) ↦ elim (Bool-cases (is_mine o row && not (is_some row.reply))) [
        | inr q ↦ absurd (ground arith)
        | inl q ↦ grind (arith, get-put_self)
      ]
    ]

change-requests :
    (o : Ownership) (now : ℕ) (db db' : Database)
    → (change o now request_change none none >>= λ _. pure tt) db ≡ (ok tt, db')
    → db'.requests ≡ db.requests
unfolding change
change-requests o now db db' h = elim (Bool-cases (holds now o (Dict.get db.roots o.root_id))) [
  | inr q ↦ absurd (ground arith)
  | inl q ↦ ground arith
]

-- what a reply leaves in its request's row
reply-request_reply :
    (o : Ownership) (now : ℕ) (answer : CommandReply) (db db' : Database)
    → reply o now answer db ≡ (ok tt, db')
    → request_reply answer.request_id db' ≡ some answer
unfolding reply request_reply
reply-request_reply o now answer db db' h =
    let (_, mid, p, q) =
      bind-inverse (record_reply o answer)
        (λ _. change o now request_change none none >>= λ _. pure tt) db db' tt h in
    ap (λ rs. elim (Dict.get rs answer.request_id) [ none ↦ none | some row ↦ row.reply ])
      (change-requests o now mid db' q)
    ∙ record_reply-request_reply o answer db mid p

end_deletion-requests :
    (o : Ownership) (now : ℕ) (deletes : Bool) (db db' : Database)
    → end_deletion o now deletes db ≡ (ok tt, db')
    → db'.requests ≡ db.requests
unfolding end_deletion finish_deletion assert_fence
end_deletion-requests o now false db db' h = ground arith
end_deletion-requests o now true db db' h =
    elim (Bool-cases (holds now o (Dict.get db.roots o.root_id))) [
      | inr p ↦ absurd (ground arith)
      | inl p ↦ elim (Option-cases (Dict.get db.roots o.root_id)) [
        | inl q ↦ ground arith
        | inr (row, q) ↦ ground arith
      ]
    ]

settle-request_reply :
    (o : Ownership) (clock : ℕ → ℕ) (e : CommandEnvelope) (given : CommandReply × Bool)
    (answer : CommandReply) (db db' : Database)
    → settle o clock e given db ≡ (ok (some answer), db')
    → request_reply e.request_id db' ≡ some answer
unfolding settle request_reply
settle-request_reply o clock e (given, deletes) answer db db' h =
    elim (Bool-cases (given.request_id == e.request_id)) [
      | inr p ↦ absurd (ground arith)
      | inl p ↦
          let h' : (reply o (clock 3) given
                  >> (end_deletion o (clock 4) deletes >> pure (some given)))
                db
              ≡ (ok (some answer), db') =
            ground arith in
          let (_, mid, q, r) =
            bind-inverse (reply o (clock 3) given)
              (λ _. end_deletion o (clock 4) deletes >> pure (some given)) db db' (some answer)
              h' in
          let (_, last, s, t) =
            bind-inverse (end_deletion o (clock 4) deletes) (λ _. pure (some given)) mid db'
              (some answer) r in
          let same : given ≡ answer = ground arith in
          let kept : request_reply given.request_id last ≡ some given =
            ap (λ rs. elim (Dict.get rs given.request_id) [ none ↦ none | some row ↦ row.reply ])
              (end_deletion-requests o (clock 4) deletes mid last s)
            ∙ reply-request_reply o (clock 3) given db mid q in
          let under : given.request_id ≡ e.request_id =
            (eq_iff given.request_id e.request_id).0 p in
          subst (λ d. request_reply e.request_id d ≡ some answer)
            (ap (λ (x : Outcome (Option CommandReply) × Database). x.1) t)
            (subst (λ (a : CommandReply). request_reply e.request_id last ≡ some a) same
              (subst (λ i. request_reply i last ≡ some given) under kept))
    ]

answer_locked-request_reply :
    (o : Ownership) (clock : ℕ → ℕ) (operation : CommandEnvelope → Tx (CommandReply × Bool))
    (locked : Option CommandEnvelope) (answer : CommandReply) (db db' : Database)
    → answer_locked o clock operation locked db ≡ (ok (some answer), db')
    → (e : CommandEnvelope) × (locked ≡ some e) × (request_reply e.request_id db' ≡ some answer)
unfolding answer_locked
answer_locked-request_reply o clock operation none answer db db' h = absurd (ground arith)
answer_locked-request_reply o clock operation (some e) answer db db' h =
    let (given, mid, p, q) = bind-inverse (operation e) (settle o clock e) db db' (some answer) h in
    (e, refl, settle-request_reply o clock e given answer mid db' q)

-- what the transaction works on is what the row holds
lock_request-envelope :
    (o : Ownership) (now later : ℕ) (id : String) (row : RequestRow) (e : CommandEnvelope)
    (db db' : Database)
    → Dict.get db.requests id ≡ some row
    → lock_request o now later id db ≡ (ok (some e), db')
    → row.envelope ≡ e
unfolding lock_request assert_fence
lock_request-envelope o now later id row e db db' g h =
    elim (Bool-cases (holds now o (Dict.get db.roots o.root_id))) [
      | inr p ↦ absurd (ground arith)
      | inl p ↦ elim (Bool-cases (is_open later o.root_id (id, row) && is_mine o row)) [
        | inr q ↦ absurd (ground arith)
        | inl q ↦ ground arith
      ]
    ]

-- When a transaction answers a request, whose row holds an envelope with the request's own id, the
-- answer is what the sender reads under that id.
pub apply_request-request_reply :
    (o : Ownership) (clock : ℕ → ℕ) (operation : CommandEnvelope → Tx (CommandReply × Bool))
    (id : String) (row : RequestRow) (answer : CommandReply) (db db' : Database)
    → Dict.get db.requests id ≡ some row
    → row.envelope.request_id ≡ id
    → apply_request o clock id operation db ≡ (ok (some answer), db')
    → request_reply id db' ≡ some answer
unfolding apply_request
apply_request-request_reply o clock operation id row answer db db' g under h =
    elim (Bool-cases (holds (clock 0) o (Dict.get db.roots o.root_id))) [
      | inr p ↦ absurd (
          let q : (raise (lease_lost o.root_id), db) ≡ (ok (some answer), db') =
            sym (transact-lost o (clock 0) (body o clock operation id) db p) ∙ h in
          ground arith)
      | inl p ↦
          let h' : (body o clock operation id) db ≡ (ok (some answer), db') =
            ending-ok db db' (some answer) (body o clock operation id db)
              (sym (transact-held o (clock 0) (body o clock operation id) db p) ∙ h) in
          let (locked, mid, q, r) =
            bind-inverse (lock_request o (clock 1) (clock 2) id) (answer_locked o clock operation)
              db db' (some answer) h' in
          let (e, t, read) =
            answer_locked-request_reply o clock operation locked answer mid db' r in
          let own : row.envelope ≡ e =
            lock_request-envelope o (clock 1) (clock 2) id row e db mid g
              (subst (λ l. lock_request o (clock 1) (clock 2) id db ≡ (ok l, mid)) t q) in
          subst (λ i. request_reply i db' ≡ some answer)
            (sym (ap (λ (x : CommandEnvelope). x.request_id) own) ∙ under) read
    ]

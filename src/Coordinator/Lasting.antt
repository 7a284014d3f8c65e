-- ===== src/Coordinator/Lasting.antt =====
-- What may become of a row of `coordinator_requests`: it is addressed anew until it has its reply.
pub mod Statements
use tantra.Prelude.{
  ℕ, suc, ◌+◌, String, ◌≡◌, refl, ap, sym, ◌∙◌, subst, Bool, true, false, ◌&&◌, ◌||◌, not, ◌⊎◌, inl,
  inr, Option, none, some, List, [], ◌∷◌, arith, ◌==◌, eq_iff, Bool-cases, Option-cases, has,
  is_some, is_text, ltb, if◌then◌else◌,
}
use tantra.Prelude.Dict
use tantra.Prelude.Dict.{Dict, get-put, get-put_self}
use tantra.Prelude.Outcome.{Outcome-cases, ok, writer_replaced}
use tantra.Coordinator.{
  Ownership, CommandEnvelope, CommandReply, ChangeKind, WriterToken, request_change, writer_change,
  activity_change, recovery_change, deleted_change, ownership_change,
}
use tantra.Coordinator.Database.{
  Database, RequestRow, RootRow, holds, update_root, unowned, set_root, is_busy, unlease,
}
use tantra.Coordinator.Lease.{
  acquire, take_over, renew, release, relinquish_failed_prestart, let_go, is_pending, is_under_way,
  waits_to_start,
}
use tantra.Coordinator.Transaction.{
  Tx, fail, ◌>>=◌, ◌>>◌, pure, transact, assert_fence, change, on_root, claim_writer,
  release_writer, validate_writer, set_active, set_recovery, reply, finish_deletion,
  relinquish_unrecovered, record_reply, is_mine, note_activity, notice, writer_is,
}
use tantra.Coordinator.Requests.{put_request, addressed}
use tantra.Coordinator.System.{
  Statement, claims, drops_writer, validates, activates, notes_recovery, replies, finishes_deletion,
  relinquishes, execute, execute_all, Step, acquires, renews, releases, gives_up, requests,
  transacts, World, perform, perform_all, commit,
}

-- what may become of a row
abbrev pub Follows : RequestRow → RequestRow → Type 0
Follows row row' =
    (row'.root_id ≡ row.root_id)
    × (row'.envelope ≡ row.envelope)
    × ((row.reply ≡ none) ⊎ (row' ≡ row))

Follows-trans : (a b c : RequestRow) → Follows a b → Follows b c → Follows a c
Follows-trans a b c (p, q, inl r) (t, u, v) = (t ∙ p, u ∙ q, inl r)
Follows-trans a b c (p, q, inr r) (t, u, inl v) =
    (t ∙ p, u ∙ q, inl (subst (λ (x : RequestRow). x.reply ≡ none) r v))
Follows-trans a b c (p, q, inr r) (t, u, inr v) = (t ∙ p, u ∙ q, inr (v ∙ r))

pub record Lasts (d d' : Dict RequestRow) : Type 0 where
  pub at :
      (id : String) (row : RequestRow)
      → Dict.get d id ≡ some row
      → (row' : RequestRow) × (Dict.get d' id ≡ some row') × Follows row row'

pub Lasts-refl : (d : Dict RequestRow) → Lasts d d
Lasts-refl d = record { at = λ id row p. (row, p, (refl, refl, inr refl)) }

pub Lasts-same : {d d' : Dict RequestRow} → d' ≡ d → Lasts d d'
Lasts-same {d} e = subst (Lasts d) (sym e) (Lasts-refl d)

pub Lasts-trans : {d e f : Dict RequestRow} → Lasts d e → Lasts e f → Lasts d f
Lasts-trans h k = record {
  at = λ id row p.
      let (mid, q, r) = h.at id row p in
      let (last, t, u) = k.at id mid q in (last, t, Follows-trans row mid last r u);
}

pub Lasts-put :
    (d : Dict RequestRow) (id : String) (row row' : RequestRow)
    → Dict.get d id ≡ some row
    → Follows row row'
    → Lasts d (Dict.put d id row')
Lasts-put d id row row' p f = record {
  at = λ j old q. elim (Bool-cases (id == j)) [
    | inl e ↦
        let same : id ≡ j = (eq_iff id j).0 e in
        let known : some row ≡ some old = sym p ∙ (ap (Dict.get d) same ∙ q) in
        let own : row ≡ old = ground arith in
        (row', rw (get-put d id row' j) (rw e refl), subst (λ r. Follows r row') own f)
    | inr e ↦ (old, rw (get-put d id row' j) (rw e q), (refl, refl, inr refl))
  ];
}

Lasts-insert :
    (d : Dict RequestRow) (id : String) (row : RequestRow)
    → Dict.get d id ≡ none
    → Lasts d (Dict.put d id row)
Lasts-insert d id row p = record {
  at = λ j old q. elim (Bool-cases (id == j)) [
    | inl e ↦
        let same : id ≡ j = (eq_iff id j).0 e in
        let known : none ≡ some old = sym p ∙ (ap (Dict.get d) same ∙ q) in absurd (ground arith)
    | inr e ↦ (old, rw (get-put d id row j) (rw e q), (refl, refl, inr refl))
  ];
}

pub unanswered : (r : Option CommandReply) → is_some r ≡ false → r ≡ none
unanswered none h = refl
unanswered (some a) h = absurd (ground arith)

pub put_request-Lasts :
    (same_envelope : CommandEnvelope → CommandEnvelope → Bool) (now : ℕ) (e : CommandEnvelope)
    (o : Ownership) (db : Database)
    → Lasts db.requests (put_request same_envelope now e o db).1.requests
unfolding put_request
put_request-Lasts same_envelope now e o db = elim (Bool-cases (has db.deleted e.root_id)) [
  | inl p ↦ rw (p, put_request) (Lasts-refl db.requests)
  | inr p ↦ elim (Bool-cases (holds now o (Dict.get db.roots e.root_id))) [
    | inr q ↦ rw (p, put_request) (rw q (Lasts-refl db.requests))
    | inl q ↦ elim (Option-cases (Dict.get db.requests e.request_id)) [
      | inl r ↦
          rw (p, put_request)
            (rw q (rw r (Lasts-insert db.requests e.request_id (addressed e o) r)))
      | inr (row, r) ↦
          elim (Bool-cases (not (row.root_id == e.root_id) || not (same_envelope row.envelope e))) [
            | inl t ↦ rw (p, put_request) (rw q (rw r (rw t (Lasts-refl db.requests))))
            | inr t ↦ elim (Bool-cases (is_some row.reply)) [
              | inl u ↦ rw (p, put_request) (rw q (rw r (rw t (rw u (Lasts-refl db.requests)))))
              | inr u ↦
                  rw (p, put_request)
                    (rw q (
                      rw r (
                        rw t (
                          rw u (
                            Lasts-put db.requests e.request_id row _ r
                              (refl, refl, inl (unanswered row.reply u)))))))
            ]
          ]
    ]
  ]
]

-- The leases are kept in another table.
pub acquire-requests :
    (instance : String) (ttl now later : ℕ) (root : String) (db : Database)
    → (acquire instance ttl now later root db).1.requests ≡ db.requests
unfolding acquire take_over
acquire-requests instance ttl now later root db = ground arith

pub renew-requests :
    (ttl now later : ℕ) (o : Ownership) (db : Database)
    → (renew ttl now later o db).1.requests ≡ db.requests
unfolding renew
renew-requests ttl now later o db = ground arith

pub release-requests :
    (now work_now later : ℕ) (o : Ownership) (db : Database)
    → (release now work_now later o db).1.requests ≡ db.requests
unfolding release let_go
release-requests now work_now later o db = ground arith

pub relinquish_failed_prestart-requests :
    (now work_now later : ℕ) (o : Ownership) (actor : String) (db : Database)
    → (relinquish_failed_prestart now work_now later o actor db).1.requests ≡ db.requests
unfolding relinquish_failed_prestart let_go
relinquish_failed_prestart-requests now work_now later o actor db = ground arith

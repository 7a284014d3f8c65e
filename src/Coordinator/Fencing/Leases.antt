-- ===== src/Coordinator/Fencing/Leases.antt =====
-- What acquiring, renewing and releasing do to a row.
use tantra.Prelude.{
  ℕ, ◌+◌, ◌||◌, String, ◌≡◌, refl, Bool, true, false, not, inl, inr, some, arith, Bool-cases,
  Option-cases, if◌then◌else◌, is_text, ltb, has,
}
use tantra.Prelude.Dict
use tantra.Prelude.Dict.{Dict, get-put, get-put_self}
use tantra.Prelude.Outcome.{ok}
use tantra.Coordinator.{Ownership, CommandEnvelope}
use tantra.Coordinator.Database.{Database, RootRow, unowned, holds, set_root, is_busy}
use tantra.Coordinator.Lease.{
  acquire, take_over, renew, release, relinquish_failed_prestart, let_go, taken, is_pending,
  is_under_way, waits_to_start,
}
use tantra.Coordinator.Requests.{put_request}
use tantra.Coordinator.Fencing.Rows.{Keeps, Keeps-put, Keeps-refl, Keeps-trans, Keeps-get_or}

pub take_over-Keeps :
    (instance : String) (ttl now later : ℕ) (root : String) (row : RootRow) (db : Database)
    → Dict.get db.roots root ≡ some row
    → Keeps db.roots (take_over instance ttl now later root row db).1.roots
unfolding take_over
take_over-Keeps instance ttl now later root row db p =
    Keeps-put db.roots root row (taken instance (later + ttl) row) p (inl (omega arith))

pub acquire-Keeps :
    (instance : String) (ttl now later : ℕ) (root : String) (db : Database)
    → Keeps db.roots (acquire instance ttl now later root db).1.roots
unfolding acquire
acquire-Keeps instance ttl now later root db =
    let row : RootRow = Dict.get_or db.roots root unowned in
    let inserted : Database = set_root root row db in
    let first : Keeps db.roots inserted.roots = Keeps-get_or db.roots root in
    let second : Keeps db.roots (take_over instance ttl now later root row inserted).1.roots =
      Keeps-trans first (
        take_over-Keeps instance ttl now later root row inserted
          (get-put_self db.roots root row)) in
    elim (Bool-cases (has db.deleted root)) [
      | inl d ↦ rw (d, acquire) (Keeps-refl db.roots)
      | inr d ↦ elim (Option-cases row.expires_at) [
        | inl p ↦ rw (d, p, acquire) second
        | inr (t, p) ↦ elim (Bool-cases (ltb now t)) [
          | inr q ↦ rw (d, p, acquire) (rw q second)
          | inl q ↦ elim (Bool-cases (is_text row.owner instance)) [
            | inl r ↦ rw (d, p, acquire) (rw q (rw r first))
            | inr r ↦ rw (d, p, acquire) (rw q (rw r first))
          ]
        ]
      ]
    ]

pub renew-Keeps :
    (ttl now later : ℕ) (o : Ownership) (db : Database)
    → Keeps db.roots (renew ttl now later o db).1.roots
unfolding renew
renew-Keeps ttl now later o db = elim (Option-cases (Dict.get db.roots o.root_id)) [
  | inl p ↦ rw (p, renew) (Keeps-refl db.roots)
  | inr (row, p) ↦ elim (Bool-cases (holds now o (some row))) [
    | inl q ↦ rw (p, renew) (rw q (Keeps-put db.roots o.root_id row _ p (inr (refl, inr refl))))
    | inr q ↦ rw (p, renew) (rw q (Keeps-refl db.roots))
  ]
]

pub let_go-Keeps :
    (now : ℕ) (o : Ownership) (db : Database) → Keeps db.roots (let_go now o db).1.roots
unfolding let_go
let_go-Keeps now o db = elim (Option-cases (Dict.get db.roots o.root_id)) [
  | inl p ↦ rw (p, let_go) (Keeps-refl db.roots)
  | inr (row, p) ↦ elim (Bool-cases (holds now o (some row))) [
    | inl q ↦ rw (p, let_go) (rw q (Keeps-put db.roots o.root_id row _ p (inr (refl, inl refl))))
    | inr q ↦ rw (p, let_go) (rw q (Keeps-refl db.roots))
  ]
]

-- the end that the two releases share
refused_or_let_go-Keeps :
    (held busy : Bool) (later : ℕ) (o : Ownership) (db : Database)
    → Keeps db.roots
        (if not held
          then (ok false, db)
          else if busy
          then (ok false, db)
          else let_go later o db).1.roots
refused_or_let_go-Keeps false busy later o db = Keeps-refl db.roots
refused_or_let_go-Keeps true true later o db = Keeps-refl db.roots
refused_or_let_go-Keeps true false later o db = let_go-Keeps later o db

pub release-Keeps :
    (now work_now later : ℕ) (o : Ownership) (db : Database)
    → Keeps db.roots (release now work_now later o db).1.roots
unfolding release
release-Keeps now work_now later o db =
    refused_or_let_go-Keeps (holds now o (Dict.get db.roots o.root_id))
      (is_busy work_now is_pending o.root_id db) later o db

pub relinquish_failed_prestart-Keeps :
    (now work_now later : ℕ) (o : Ownership) (actor : String) (db : Database)
    → Keeps db.roots (relinquish_failed_prestart now work_now later o actor db).1.roots
unfolding relinquish_failed_prestart
relinquish_failed_prestart-Keeps now work_now later o actor db =
    refused_or_let_go-Keeps (holds now o (Dict.get db.roots o.root_id))
      (is_busy work_now is_under_way o.root_id db
        || not (waits_to_start o.root_id (Dict.get db.sessions actor)))
      later o db

pub put_request-roots :
    (same_envelope : CommandEnvelope → CommandEnvelope → Bool) (now : ℕ) (e : CommandEnvelope)
    (o : Ownership) (db : Database)
    → (put_request same_envelope now e o db).1.roots ≡ db.roots
unfolding put_request
put_request-roots same_envelope now e o db = ground arith

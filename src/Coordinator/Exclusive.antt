-- ===== src/Coordinator/Exclusive.antt =====
-- When an instance can take a tree, and how long it keeps it.
use tantra.Prelude.{
  ℕ, suc, ◌+◌, ◌≤◌, ◌<◌, String, ◌≡◌, ◌≢◌, refl, subst, true, false, inl, inr, some, arith, eq_iff,
  eq_refl, Bool-cases, Option-cases, has, ltb,
}
use tantra.Prelude.Dict
use tantra.Prelude.Dict.{Dict, get-put_self}
use tantra.Prelude.Outcome.{ok}
use tantra.Coordinator.{Ownership}
use tantra.Coordinator.Database.{Database, RootRow, unowned, holds, is_current, set_root}
use tantra.Coordinator.Lease.{acquire, take_over, taken, granted, renew}

-- Another instance takes a tree only when the owner's lease has expired, and under the next
-- generation.
pub acquire_after_expiry :
    (instance owner : String) (ttl now later : ℕ) (root : String) (db db' : Database)
    (row : RootRow) (t : ℕ) (o : Ownership)
    → acquire instance ttl now later root db ≡ (ok (some o), db')
    → Dict.get db.roots root ≡ some row
    → row.owner ≡ some owner
    → owner ≢ instance
    → row.expires_at ≡ some t
    → (t ≤ now) × (o.generation ≡ suc row.generation)
unfolding acquire take_over
acquire_after_expiry instance owner ttl now later root db db' row t o h p e n x =
    elim (Bool-cases (ltb now t)) [
      | inl q ↦ absurd (ground (arith, eq_iff owner instance))
      | inr q ↦ ground arith
    ]

-- Any instance takes a tree that is not deleted and has no valid lease, and then holds it until the
-- lease that it got expires.
pub acquire_free :
    (instance : String) (ttl now later soon : ℕ) (root : String) (db : Database)
    → has db.deleted root ≡ false
    → is_current now (Dict.get_or db.roots root unowned).expires_at ≡ false
    → soon < later + ttl
    → (o : Ownership) × (db' : Database) × (acquire instance ttl now later root db
        ≡ (ok (some o), db'))
      × (holds soon o (Dict.get db'.roots root) ≡ true)
unfolding acquire take_over
acquire_free instance ttl now later soon root db d f l =
    let row : RootRow = Dict.get_or db.roots root unowned in
    let db' : Database = (take_over instance ttl now later root row (set_root root row db)).1 in
    (
      granted root instance (suc row.generation) (later + ttl),
      db',
      (elim (Option-cases row.expires_at) [
        | inl p ↦ rw (d, p, acquire) refl
        | inr (t, p) ↦
            let q : ltb now t ≡ false = subst (λ e. is_current now e ≡ false) p f in
            rw (d, p, acquire) (rw q refl)
      ]),
      (rw (get-put_self (set_root root row db).roots root (taken instance (later + ttl) row))
          (ground (arith, eq_refl instance))),
    )

-- An owner whose lease holds renews it, and holds it under the same generation until the new time.
pub renew_held :
    (ttl now later soon : ℕ) (o : Ownership) (db : Database)
    → holds now o (Dict.get db.roots o.root_id) ≡ true
    → soon < later + ttl
    → (o' : Ownership) × (db' : Database) × (renew ttl now later o db ≡ (ok o', db'))
      × (o'.generation ≡ o.generation)
      × (holds soon o' (Dict.get db'.roots o.root_id) ≡ true)
unfolding renew
renew_held ttl now later soon o db h l = elim (Option-cases (Dict.get db.roots o.root_id)) [
  | inl p ↦ absurd (let f : false ≡ true = subst (λ r. holds now o r ≡ true) p h in ground arith)
  | inr (row, p) ↦
      let q : holds now o (some row) ≡ true = subst (λ r. holds now o r ≡ true) p h in
      let row' : RootRow = record row { expires_at = some (later + ttl) } in
      (
        granted o.root_id o.instance_id row.generation (later + ttl),
        set_root o.root_id row' db,
        rw (p, renew) (rw q refl),
        ground arith,
        rw (get-put_self db.roots o.root_id row') (ground arith),
      )
]

-- ===== src/Coordinator/Running.antt =====
-- How statements and transactions run, from what their parts return.
use tantra.Prelude.{ℕ, ◌≡◌, ap, arith, Bool, true, false, if◌then◌else◌}
use tantra.Prelude.Dict
use tantra.Prelude.Outcome.{Outcome, ok, raise, lease_lost}
pub use tantra.Prelude.Stateful.{bind-ok, bind-raise, bind-inverse}
use tantra.Coordinator.{Ownership}
use tantra.Coordinator.Database.{Database, holds}
use tantra.Coordinator.Transaction.{Tx, ◌>>=◌, transact, assert_fence}

-- the end of a transaction
abbrev pub ending : {A : Type 0} → Database → Outcome A × Database → Outcome A × Database
ending db x = elim x.0 [ ok a ↦ (ok a, x.1) | raise e ↦ (raise e, db) ]

pub ending-ok :
    {A : Type 0} (db db' : Database) (a : A) (x : Outcome A × Database)
    → ending db x ≡ (ok a, db')
    → x ≡ (ok a, db')
ending-ok db db' a (ok b, last) h = h
ending-ok db db' a (raise e, last) h = absurd (ground arith)

module _ (o : Ownership) (now : ℕ) where
  pub transact-held :
      {A : Type 0} (body : Tx A) (db : Database)
      → holds now o (Dict.get db.roots o.root_id) ≡ true
      → transact o now body db ≡ ending db (body db)
  unfolding transact
  transact-held body db h =
      ap (λ (b : Bool). (if b then ending db (body db) else (raise (lease_lost o.root_id), db))) h

  pub transact-lost :
      {A : Type 0} (body : Tx A) (db : Database)
      → holds now o (Dict.get db.roots o.root_id) ≡ false
      → transact o now body db ≡ (raise (lease_lost o.root_id), db)
  unfolding transact
  transact-lost body db h =
      ap (λ (b : Bool). (if b then ending db (body db) else (raise (lease_lost o.root_id), db))) h

  pub fenced-held :
      {B : Type 0} (m : Tx B) (db : Database)
      → holds now o (Dict.get db.roots o.root_id) ≡ true
      → (assert_fence o now >>= λ _. m) db ≡ m db
  unfolding assert_fence
  fenced-held m db h =
      bind-ok (assert_fence o now) (λ _. m) db db tt
        (ap (λ (b : Bool). (if b then (ok tt, db) else (raise (lease_lost o.root_id), db))) h)

  pub fenced-lost :
      {B : Type 0} (m : Tx B) (db : Database)
      → holds now o (Dict.get db.roots o.root_id) ≡ false
      → (assert_fence o now >>= λ _. m) db ≡ (raise (lease_lost o.root_id), db)
  unfolding assert_fence
  fenced-lost m db h =
      bind-raise (assert_fence o now) (λ _. m) db db (lease_lost o.root_id)
        (ap (λ (b : Bool). (if b then (ok tt, db) else (raise (lease_lost o.root_id), db))) h)

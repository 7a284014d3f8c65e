-- ===== src/Coordinator/Lease.antt =====
-- How an instance comes to own a tree, keeps it and lets it go. `ttl` is `lease_ttl`; an ownership
-- ends at the time it names.
use tantra.Prelude.{
  ℕ, suc, ◌+◌, String, Bool, true, false, ◌&&◌, ◌||◌, not, Option, none, some, has, if◌then◌else◌,
  is_text, ltb,
}
use tantra.Prelude.Dict
use tantra.Prelude.Dict.{Dict}
use tantra.Prelude.Outcome.{Outcome, ok, raise, session_not_found, lease_lost}
use tantra.Events.{SessionHeader, SessionStatus}
use tantra.Coordinator.{Ownership, ownership_change}
use tantra.Coordinator.Database.{
  Database, RootRow, unowned, holds, set_root, unlease, publish, is_busy, root_key,
}

abbrev pub Answer : Type 0 → Type 0
Answer A = Outcome A × Database

unfoldable pub locate : ℕ → String → Database → Option Ownership
locate now root db = elim (Dict.get db.roots root) [
  | none ↦ none
  | some row ↦ elim row.owner [
    | none ↦ none
    | some owner ↦ elim row.expires_at [
      | none ↦ none
      | some t ↦
          if ltb now t
          then some (record {
            root_id = root;
            instance_id = owner;
            generation = row.generation;
            expires_at = t;
          })
          else none
    ]
  ]
]

-- the row after `acquire` took the root, and the ownership that it returns
abbrev pub taken : String → ℕ → RootRow → RootRow
taken instance until row = record row {
  owner = some instance;
  generation = suc row.generation;
  expires_at = some until;
}

abbrev pub granted : String → String → ℕ → ℕ → Ownership
granted root instance generation until = record {
  root_id = root;
  instance_id = instance;
  generation = generation;
  expires_at = until;
}

-- `now` is the reading at the check, and `later` at the update.
module _ (instance : String) (ttl now later : ℕ) where
  -- the end of `acquire`, for a root without a valid lease
  unfoldable pub take_over : String → RootRow → Database → Answer (Option Ownership)
  take_over root row db = (
    ok (some (granted root instance (suc row.generation) (later + ttl))),
    publish root ownership_change none none
        (record (set_root root (taken instance (later + ttl) row) db) {
          activity = Dict.remove db.activity root;
        }),
  )

  unfoldable pub acquire : String → Database → Answer (Option Ownership)
  unfolding take_over
  acquire root db =
      let row = Dict.get_or db.roots root unowned in
      let inserted = set_root root row db in
      if has db.deleted root
      then (raise (session_not_found (some root)), db)
      else elim row.expires_at [
        | none ↦ take_over root row inserted
        | some t ↦
            if ltb now t
            then (if is_text row.owner instance
                then (ok (some (granted root instance row.generation t)), inserted)
                else (ok none, inserted))
            else take_over root row inserted
      ]

unfoldable pub renew : ℕ → ℕ → ℕ → Ownership → Database → Answer Ownership
renew ttl now later o db = elim (Dict.get db.roots o.root_id) [
  | none ↦ (raise (lease_lost o.root_id), db)
  | some row ↦
      if holds now o (some row)
      then (
        ok (granted o.root_id o.instance_id row.generation (later + ttl)),
        set_root o.root_id (record row { expires_at = some (later + ttl) }) db,
      )
      else (raise (lease_lost o.root_id), db)
]

-- the last statement of `release` and of `relinquish_failed_prestart`
unfoldable pub let_go : ℕ → Ownership → Database → Answer Bool
let_go now o db = elim (Dict.get db.roots o.root_id) [
  | none ↦ (ok false, db)
  | some row ↦
      if holds now o (some row)
      then (
        ok true,
        publish o.root_id ownership_change none none (set_root o.root_id (unlease row) db),
      )
      else (ok false, db)
]

abbrev pub is_pending : SessionStatus → Bool
is_pending SessionStatus.queued = true
is_pending SessionStatus.running = true
is_pending SessionStatus.awaiting_input = true
is_pending _ = false

abbrev pub is_under_way : SessionStatus → Bool
is_under_way SessionStatus.running = true
is_under_way SessionStatus.awaiting_input = true
is_under_way _ = false

abbrev pub is_unstarted : SessionStatus → Bool
is_unstarted SessionStatus.queued = true
is_unstarted SessionStatus.idle = true
is_unstarted _ = false

abbrev pub waits_to_start : String → Option SessionHeader → Bool
waits_to_start root none = false
waits_to_start root (some h) = is_text (some (root_key h)) root && is_unstarted h.status

-- The three readings of the clock are those of the lease, of the work and of the update.
unfoldable pub release : ℕ → ℕ → ℕ → Ownership → Database → Answer Bool
unfolding let_go
release now work_now later o db =
    if not (holds now o (Dict.get db.roots o.root_id))
    then (ok false, db)
    else if is_busy work_now is_pending o.root_id db
    then (ok false, db)
    else let_go later o db

unfoldable pub relinquish_failed_prestart : ℕ → ℕ → ℕ → Ownership → String → Database → Answer Bool
unfolding let_go
relinquish_failed_prestart now work_now later o actor db =
    if not (holds now o (Dict.get db.roots o.root_id))
    then (ok false, db)
    else if is_busy work_now is_under_way o.root_id db
        || not (waits_to_start o.root_id (Dict.get db.sessions actor))
    then (ok false, db)
    else let_go later o db

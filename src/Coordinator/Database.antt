-- ===== src/Coordinator/Database.antt =====
-- The tables that the coordinators share, and what each statement reads or writes. A transaction
-- holds the lock of its root, so it is one step; `clock_timestamp()` moves on inside it, so each
-- statement that reads it has its own reading. The database answers; the failures of a connection
-- are not modelled.
use tantra.Prelude.{
  ℕ, suc, String, Bool, false, ◌&&◌, ◌||◌, not, Option, none, some, List, [], ◌∷◌, ◌++◌, ◌==◌, any,
  eqb, is_some, is_text, ltb, or_text,
}
use tantra.Prelude.Dict
use tantra.Prelude.Dict.{Dict}
use tantra.Json.{Json}
use tantra.Events.{SessionHeader, SessionStatus}
use tantra.Coordinator.{Ownership, CommandEnvelope, CommandReply, ChangeKind}

-- a row of `coordinator_roots`
pub record RootRow : Type 0 where
  pub owner : Option String
  pub generation : ℕ
  pub expires_at : Option ℕ
  pub writer : Option String
  pub recovery : Dict Json

-- a row of `coordinator_requests`
pub record RequestRow : Type 0 where
  pub root_id : String
  pub instance : String
  pub generation : ℕ
  pub envelope : CommandEnvelope
  pub reply : Option CommandReply

-- a row of `coordinator_changes`, and its notification
pub record ChangeNotice : Type 0 where
  pub change_id : ℕ
  pub root_id : String
  pub kind : ChangeKind
  pub actor_id : Option String
  pub seq : Option ℕ

-- `activity` is by root and actor; `deleted` are the ids in `deleted_sessions`; `last_change` is the
-- last number given out.
pub record Database : Type 0 where
  pub roots : Dict RootRow
  pub activity : Dict (Dict Bool)
  pub requests : Dict RequestRow
  pub changes : List ChangeNotice
  pub last_change : ℕ
  pub sessions : Dict SessionHeader
  pub deleted : List String

-- `INSERT … (root_id) VALUES (…) ON CONFLICT DO NOTHING` leaves the column defaults
abbrev pub unowned : RootRow
unowned = record { owner = none; generation = 0; expires_at = none; writer = none; recovery = [] }

-- `expires_at > clock_timestamp()`, where null counts as false
abbrev pub is_current : ℕ → Option ℕ → Bool
is_current now none = false
is_current now (some t) = ltb now t

-- the row has this owner and generation, and the lease has not expired
abbrev pub holds : ℕ → Ownership → Option RootRow → Bool
holds now o none = false
holds now o (some row) =
    is_text row.owner o.instance_id
    && eqb row.generation o.generation
    && is_current now row.expires_at

abbrev pub set_root : String → RootRow → Database → Database
set_root root row db = record db { roots = Dict.put db.roots root row }

-- `UPDATE coordinator_roots … WHERE root_id = …`
abbrev pub update_root : String → (RootRow → RootRow) → Database → Database
update_root root f db = elim (Dict.get db.roots root) [
  | none ↦ db
  | some row ↦ set_root root (f row) db
]

abbrev pub unlease : RootRow → RootRow
unlease row = record row { owner = none; expires_at = none }

-- `_publish`
abbrev pub publish : String → ChangeKind → Option String → Option ℕ → Database → Database
publish root kind actor seq db = record db {
  changes =
      db.changes
      ++ record {
        change_id = suc db.last_change;
        root_id = root;
        kind = kind;
        actor_id = actor;
        seq = seq;
      }
        ∷ [];
  last_change = suc db.last_change;
}

abbrev pub any_active : Option (Dict Bool) → Bool
any_active none = false
any_active (some actors) = any (λ e. e.1) actors

-- a request of the root that waits for its reply
abbrev pub is_open : ℕ → String → String × RequestRow → Bool
is_open now root (_, row) =
    row.root_id == root && not (is_some row.reply) && ltb now row.envelope.deadline

abbrev pub root_key : SessionHeader → String
root_key h = elim (or_text h.root_id none) [ none ↦ h.id | some root ↦ root ]

abbrev pub has_status : (SessionStatus → Bool) → String → String × SessionHeader → Bool
has_status p root (_, h) = root_key h == root && p h.status

-- `active` of an actor, open requests, or a session of the tree whose status satisfies `p`
abbrev pub is_busy : ℕ → (SessionStatus → Bool) → String → Database → Bool
is_busy now p root db =
    any_active (Dict.get db.activity root)
    || any (is_open now root) db.requests
    || any (has_status p root) db.sessions

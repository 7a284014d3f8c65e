-- ===== src/MemoryStore.antt =====
-- stores/memory.py: `MemoryStore`. A method returns what it returns or raises, and the store after
-- it, since what was written before a raise stays written. The lock makes each method one step. A
-- deep copy is the value itself. `uuid` and `now` are as in Header.antt.
mod Tests
pub mod Tree
pub mod Deletion
pub mod Closed
pub mod Reads
pub mod Calls
pub mod Commands
pub mod Remains
pub mod Retries
pub mod Invariant
use tantra.Prelude.{
  ℕ, suc, ◌+◌, String, Bool, ◌&&◌, ◌||◌, Option, none, some, List, [], ◌∷◌, ◌++◌, ◌==◌, filter, has,
  take, drop, length, or_text, ltb, if◌then◌else◌,
}
use tantra.Prelude.Dict
use tantra.Prelude.Dict.{Dict}
use tantra.Prelude.Outcome.{
  Outcome, ok, raise, session_not_found, session_exists, invalid_command_reuse,
}
use tantra.Json.{Json}
use tantra.Events.{SessionEvent, SessionHeader, Stamped, InputQueued, input_queued, same_input}
use tantra.Header.{Patch, apply_patch, reduce_header}
use tantra.Listing.{select_headers}
use tantra.Memories.{MemoryRecord, select_memories}

pub record MemoryStore : Type 0 where
  pub headers : Dict SessionHeader
  pub events : Dict (List Stamped)
  pub memories : Dict MemoryRecord
  pub deleted : List String

abbrev pub empty : MemoryStore
empty = record { headers = []; events = []; memories = []; deleted = [] }

pub record EnqueueResult : Type 0 where
  pub seq : ℕ
  pub duplicate : Bool

abbrev pub Result : Type 0 → Type 0
Result A = Outcome A × MemoryStore

-- `x in ids`, for an optional text
abbrev pub has_opt : List String → Option String → Bool
has_opt ids none = Bool.false
has_opt ids (some s) = has ids s

unfoldable pub create : SessionHeader → MemoryStore → Result (Unit {0})
create header s =
    if Dict.contains s.headers header.id || has s.deleted header.id
    then (raise (session_exists header.id), s)
    else if has_opt s.deleted header.root_id || has_opt s.deleted header.parent_id
    then (raise (session_not_found (or_text header.root_id header.parent_id)), s)
    else (
      ok tt,
      record s {
        headers = Dict.put s.headers header.id header;
        events = Dict.put s.events header.id [];
      },
    )

unfoldable pub get_header : String → MemoryStore → Option SessionHeader
get_header sid s = Dict.get s.headers sid

unfoldable pub is_deleted : String → MemoryStore → Bool
is_deleted sid s = has s.deleted sid

-- the session's events, where the store has none under the id: an empty list
unfoldable pub log_of : MemoryStore → String → List Stamped
log_of s sid = Dict.get_or s.events sid []

unfoldable pub put_header : ℕ → SessionHeader → MemoryStore → Result (Unit {0})
put_header now h s = elim (Dict.get s.headers h.id) [
  | none ↦ (raise (session_not_found (some h.id)), s)
  | some current ↦ (
    ok tt,
    record s {
      headers =
          Dict.put s.headers h.id (record h { updated_at = now; last_seq = current.last_seq });
    },
  )
]

unfoldable pub patch_header : ℕ → String → Patch → MemoryStore → Result SessionHeader
patch_header now sid patch s = elim (Dict.get s.headers sid) [
  | none ↦ (raise (session_not_found (some sid)), s)
  | some current ↦
      let stored = apply_patch now current patch in
      (ok stored, record s { headers = Dict.put s.headers sid stored })
]

-- the loop of `append`: consecutive numbers after `seq`
unfoldable pub stamp : ℕ → List SessionEvent → List Stamped
stamp seq [] = []
stamp seq (e ∷ es) = record { seq = suc seq; event = e } ∷ stamp (suc seq) es

module _ (uuid : String → Option String) (now : ℕ) where
  -- the part of `append` and `enqueue` after the log is written
  unfoldable pub store_header :
      {A : Type 0} → String → SessionHeader → List SessionEvent → ℕ → A → MemoryStore → Result A
  store_header sid header events seq result s = elim (reduce_header uuid now header events) [
    | raise x ↦ (raise x, s)
    | ok stored ↦ (
      ok result,
      record s { headers = Dict.put s.headers sid (record stored { last_seq = seq }) },
    )
  ]

  unfoldable pub append : String → List SessionEvent → MemoryStore → Result ℕ
  unfolding store_header log_of stamp
  append sid events s = elim (Dict.get s.headers sid) [
    | none ↦ (raise (session_not_found (some sid)), s)
    | some header ↦
        let seq = header.last_seq + length events in
        let log = log_of s sid ++ stamp header.last_seq events in
        store_header sid header events seq seq (record s { events = Dict.put s.events sid log })
  ]

-- the search of `enqueue`: the number under which the command is queued already, if it is
unfoldable pub find_command : InputQueued → List Stamped → Outcome (Option ℕ)
find_command event [] = ok none
find_command event (item ∷ log) =
    let rest = find_command event log in
    elim item.event [
      | input_queued existing ↦
          if existing.command_id == event.command_id
          then (if same_input existing event
              then ok (some item.seq)
              else raise (invalid_command_reuse event.command_id))
          else rest
      | _ ↦ rest
    ]

module _ (uuid : String → Option String) (now : ℕ) where
  unfoldable pub enqueue : String → InputQueued → MemoryStore → Result EnqueueResult
  unfolding store_header log_of find_command
  enqueue sid event s = elim (Dict.get s.headers sid) [
    | none ↦ (raise (session_not_found (some sid)), s)
    | some header ↦
        let log = log_of s sid in
        let s' = record s { events = Dict.put s.events sid log } in
        elim (find_command event log) [
          | raise x ↦ (raise x, s')
          | ok (some seq) ↦ (ok (record { seq = seq; duplicate = Bool.true }), s')
          | ok none ↦
              let seq = header.last_seq + 1 in
              let item : Stamped = record { seq = seq; event = input_queued event } in
              store_header uuid now sid header (input_queued event ∷ []) seq
                (record { seq = seq; duplicate = Bool.false })
                (record s { events = Dict.put s.events sid (log ++ item ∷ []) })
        ]
  ]

-- `after` and `limit` below zero count as zero.
unfoldable pub read_page : String → ℕ → ℕ → MemoryStore → List Stamped
unfolding log_of
read_page sid after limit s = take limit (drop after (log_of s sid))

unfoldable pub read : String → ℕ → MemoryStore → List Stamped
unfolding log_of
read sid from_seq s = filter (λ item. ltb from_seq item.seq) (log_of s sid)

unfoldable pub list_headers :
    Option (Dict Json) → Option String → ℕ → Option String → MemoryStore → List SessionHeader
list_headers metadata parent_id limit before s =
    select_headers (Dict.values s.headers) metadata parent_id limit before

unfoldable pub memory_put : MemoryRecord → MemoryStore → MemoryStore
memory_put row s = record s { memories = Dict.put s.memories row.id row }

unfoldable pub memory_get : String → MemoryStore → Option MemoryRecord
memory_get mid s = Dict.get s.memories mid

unfoldable pub memory_all : Option (Dict Json) → Bool → MemoryStore → List MemoryRecord
memory_all metadata include_dead s = select_memories (Dict.values s.memories) metadata include_dead

-- ===== src/Pages.antt =====
-- _pages.py: the recent events of the sessions that have live readers. `size_of` is `_size`, which
-- measures Python's objects. The task that fetches a page for a reader is not modelled, so `release`
-- cancels none. A dict is in insertion order, the least recently used session first.
mod Tests
pub mod Runs
pub mod Steps
use tantra.Prelude.{
  ℕ, ◌+◌, ◌-◌, ◌*◌, String, Bool, true, false, ◌||◌, ◌&&◌, not, Option, none, some, List, [], ◌∷◌,
  ◌++◌, eqb, filter, if◌then◌else◌, is_some, last?, leb, length, ltb, map, max,
}
use tantra.Prelude.Dict
use tantra.Prelude.Dict.{Dict}
use tantra.Prelude.Outcome.{Outcome, ok, raise_if, session_not_found}
use tantra.Events.{Stamped}

abbrev pub actor_events : ℕ
actor_events = 256

abbrev pub actor_bytes : ℕ
actor_bytes = 1024 * 1024

abbrev pub cache_actors : ℕ
cache_actors = 64

abbrev pub cache_bytes : ℕ
cache_bytes = 16 * 1024 * 1024

-- events with their sizes
pub record Recent : Type 0 where
  pub items : List (Stamped × ℕ)
  pub size : ℕ

abbrev pub fresh : Recent
fresh = record { items = []; size = 1024 }

pub record Readers : Type 0 where
  pub users : ℕ
  pub high_water : ℕ
  pub deleted : Bool

pub record CommittedPages : Type 0 where
  pub recent : Dict Recent
  pub readers : Dict Readers
  pub size : ℕ
  pub closed : Bool

abbrev pub opened : CommittedPages
opened = record { recent = []; readers = []; size = 0; closed = false }

unfoldable pub retain : String → CommittedPages → CommittedPages
retain sid s = elim (Dict.get s.readers sid) [
  | none ↦ record s {
    readers = Dict.put s.readers sid (record { users = 1; high_water = 0; deleted = false });
  }
  | some state ↦ record s {
    readers = Dict.put s.readers sid (record state { users = state.users + 1 });
  }
]

abbrev pub was_deleted : Option Readers → Bool
was_deleted none = false
was_deleted (some state) = state.deleted

unfoldable pub check : String → CommittedPages → Outcome (Unit {0})
check sid s = raise_if (was_deleted (Dict.get s.readers sid)) (session_not_found (some sid))

unfoldable pub advance : String → ℕ → CommittedPages → CommittedPages
advance sid seq s = elim (Dict.get s.readers sid) [
  | none ↦ s
  | some state ↦ record s {
    readers = Dict.put s.readers sid (record state { high_water = max state.high_water seq });
  }
]

unfoldable pub high_water_of : String → CommittedPages → ℕ
high_water_of sid s = elim (Dict.get s.readers sid) [ none ↦ 0 | some state ↦ state.high_water ]

-- `_drop`
unfoldable pub forget : String → CommittedPages → CommittedPages
forget sid s = elim (Dict.get s.recent sid) [
  | none ↦ s
  | some entry ↦ record s { recent = Dict.remove s.recent sid; size = s.size - entry.size }
]

unfoldable pub invalidate : String → CommittedPages → CommittedPages
unfolding forget
invalidate sid s =
    let s' = forget sid s in
    elim (Dict.get s'.readers sid) [
      | none ↦ s'
      | some state ↦ record s' {
        readers = Dict.put s'.readers sid (record state { deleted = true });
      }
    ]

-- A session that is retained has a user.
unfoldable pub release : String → CommittedPages → CommittedPages
unfolding forget
release sid s = elim (Dict.get s.readers sid) [
  | none ↦ s
  | some state ↦
      if ltb 1 state.users
      then record s { readers = Dict.put s.readers sid (record state { users = state.users - 1 }) }
      else forget sid (record s { readers = Dict.remove s.readers sid })
]

-- the inner loop of `publish`: the oldest events go until the rest is small enough. An empty entry
-- is.
abbrev pub trim : List (Stamped × ℕ) → ℕ → Recent
trim [] size = record { items = []; size = size }
trim ((item, n) ∷ items) size =
    let rest = trim items (size - n) in
    if ltb actor_events (length ((item, n) ∷ items)) || ltb actor_bytes size
    then rest
    else record { items = (item, n) ∷ items; size = size }

abbrev pub has_items : Recent → Bool
has_items entry = is_some (last? entry.items)

-- the last loop of `publish`. An empty cache is small enough.
abbrev pub evict : Dict Recent → ℕ → Dict Recent × ℕ
evict [] size = ([], size)
evict ((sid, entry) ∷ recent) size =
    let rest = evict recent (size - entry.size) in
    if ltb cache_actors (length ((sid, entry) ∷ recent)) || ltb cache_bytes size
    then rest
    else ((sid, entry) ∷ recent, size)

module _ (size_of : Stamped → ℕ) where
  unfoldable pub push : Recent → Stamped → Recent
  push entry item =
      let n = size_of item in
      if ltb actor_bytes (n + 1024)
      then fresh
      else trim (entry.items ++ (item, n) ∷ []) (entry.size + n)

  -- the body of the loop of `publish`
  unfoldable pub admit : Recent → Stamped → Recent
  unfolding push
  admit entry item = elim (last? entry.items) [
    | none ↦ push entry item
    | some (newest, _) ↦
        if leb item.seq newest.seq
        then entry
        else if eqb item.seq (newest.seq + 1)
        then push entry item
        else push fresh item
  ]

  abbrev pub admit_all : Recent → List Stamped → Recent
  admit_all entry [] = entry
  admit_all entry (item ∷ items) = admit_all (admit entry item) items

  -- `publish` once it goes ahead, with the events' last number
  unfoldable pub store_recent : String → List Stamped → CommittedPages → CommittedPages
  store_recent sid items s =
      let entry = Dict.get_or s.recent sid fresh in
      let others = Dict.remove s.recent sid in
      let size = s.size - (if has_items entry then entry.size else 0) in
      let entry' = admit_all entry items in
      let (recent, total) =
        if has_items entry'
        then evict (Dict.put others sid entry') (size + entry'.size)
        else evict others size in
      record s { recent = recent; size = total }

  unfoldable pub publish : String → List Stamped → CommittedPages → CommittedPages
  unfolding advance store_recent
  publish sid items s = elim (last? items) [
    | none ↦ s
    | some newest ↦
        if not (is_some (Dict.get s.readers sid))
          || was_deleted (Dict.get s.readers sid)
          || s.closed
        then s
        else store_recent sid items (advance sid newest.seq s)
  ]

-- the events of an entry after a number
abbrev pub after_number : ℕ → List (Stamped × ℕ) → List Stamped
after_number after items = filter (λ item. ltb after item.seq) (map (λ e. e.0) items)

abbrev pub spans : ℕ → Recent → Bool
spans seq entry = elim entry.items [
  | [] ↦ false
  | (oldest, _) ∷ rest ↦
      leb oldest.seq seq
      && elim (last? entry.items) [ none ↦ false | some (newest, _) ↦ leb seq newest.seq ]
]

-- `_cached`
unfoldable pub cached : String → ℕ → CommittedPages → Option (List Stamped) × CommittedPages
cached sid after s = elim (Dict.get s.recent sid) [
  | none ↦ (none, s)
  | some entry ↦
      if spans (after + 1) entry
      then (
        some (after_number after entry.items),
        record s { recent = Dict.put (Dict.remove s.recent sid) sid entry },
      )
      else (none, s)
]

unfoldable pub close : CommittedPages → CommittedPages
close s = record s { recent = []; readers = []; size = 0; closed = true }

-- ===== src/MemoryStore/Deletion.antt =====
-- `delete_tree`: what a deletion removes and leaves, and what it refuses.
use tantra.Prelude.{
  String, ◌≡◌, refl, Bool, true, ◌||◌, not, ◌⊎◌, or_text, Bool-cases, inl, inr, Option, none, some,
  List, [], ◌∷◌, arith, any, has, eq_iff, Option-cases, if◌then◌else◌,
}
use tantra.Prelude.Dict
use tantra.Prelude.Dict.{get-remove}
use tantra.Prelude.Outcome.{
  Error, Outcome, ok, raise, Outcome-cases, session_exists, session_not_found, traverse,
}
use tantra.Events.{SessionHeader}
use tantra.Cleanup.{tree_revision, check_revision}
use tantra.MemoryStore.{MemoryStore, create, get_header, is_deleted, log_of}
use tantra.MemoryStore.Tree.{
  delete_tree, delete_checks, erase, drop_all, header_at, is_active, headers_of, is_top, tree_ids,
}

-- the store when nothing raised
unfoldable dropped : List String → MemoryStore → MemoryStore
dropped [] s = s
dropped (id ∷ ids) s = dropped ids (erase id s)

drop_all-dropped :
    (ids : List String) (s s' : MemoryStore) → drop_all ids s ≡ (ok tt, s') → dropped ids s ≡ s'
unfolding drop_all dropped
drop_all-dropped [] s s' h = ground arith
drop_all-dropped (id ∷ ids) s s' h = elim (Option-cases (Dict.get s.headers id)) [
  | inl p ↦ absurd (ground arith)
  | inr (k, p) ↦ drop_all-dropped ids (erase id s) s' (rw (p, drop_all) at h)
]

get-dropped :
    (ids : List String) (s : MemoryStore) (j : String)
    → Dict.get (dropped ids s).headers j ≡ (if has ids j then none else Dict.get s.headers j)
unfolding dropped
get-dropped [] s j = refl
get-dropped (id ∷ ids) s j =
    ground (arith, get-dropped ids (erase id s) j, get-remove s.headers id j)

log_of-dropped :
    (ids : List String) (s : MemoryStore) (j : String)
    → log_of (dropped ids s) j ≡ (if has ids j then [] else log_of s j)
unfolding dropped log_of
log_of-dropped [] s j = refl
log_of-dropped (id ∷ ids) s j =
    ground (arith, log_of-dropped ids (erase id s) j, get-remove s.events id j)

has-dropped :
    (ids : List String) (s : MemoryStore) (j : String)
    → has (dropped ids s).deleted j ≡ (has ids j || has s.deleted j)
unfolding dropped
has-dropped [] s j = refl
has-dropped (id ∷ ids) s j = ground (arith, has-dropped ids (erase id s) j)

create_refused :
    (header : SessionHeader) (j : String) (s : MemoryStore)
    → has s.deleted j ≡ true
    → (header.id ≡ j) ⊎ (header.parent_id ≡ some j)
    → (x : Error) × (create header s ≡ (raise x, s))
unfolding create
create_refused header j s d w =
    elim (Bool-cases (Dict.contains s.headers header.id || has s.deleted header.id)) [
      | inl e ↦ (session_exists header.id, ground arith)
      | inr e ↦ (session_not_found (or_text header.root_id header.parent_id), ground arith)
    ]

-- the revision that the caller expects, if any, is this one
abbrev pub Expects : Option String → String → Type 0
Expects none actual = Unit
Expects (some revision) actual = revision ≡ actual

pub check_revision-ok :
    (expected : Option String) (actual : String)
    → check_revision expected actual ≡ ok tt
    → Expects expected actual
unfolding check_revision
check_revision-ok none actual h = tt
check_revision-ok (some revision) actual h = ground (arith, eq_iff revision actual)

module _ (digest : List SessionHeader → String) (allow_active : Bool)
    (before_delete : List String → Outcome (Unit {0})) (expected : Option String) where
  -- what a deletion that returns has done
  delete_tree-dropped :
      (sid : String) (root : SessionHeader) (s s' : MemoryStore) (ids : List String)
      → Dict.get s.headers sid ≡ some root
      → delete_tree digest allow_active before_delete expected sid s ≡ (ok ids, s')
      → (delete_checks digest allow_active before_delete expected sid root s ≡ ok ids)
        × (dropped ids s ≡ s')
  unfolding delete_tree
  delete_tree-dropped sid root s s' ids p h =
      elim (Outcome-cases (delete_checks digest allow_active before_delete expected sid root s)) [
        | inr (y, q) ↦ absurd (ground arith)
        | inl (ids', q) ↦ elim (Outcome-cases (drop_all ids' s).0) [
          | inr (y, t) ↦ absurd (ground arith)
          | inl (u, t) ↦
              let same : ids' ≡ ids = ground arith in
              (ground arith, rw same at (drop_all-dropped ids' s s' (ground arith)))
        ]
      ]

  -- After a deletion that returns `ids`, a session of `ids` has no header and no log and counts as
  -- deleted, and every other session keeps its header, its log and its mark.
  pub delete_tree_done :
      (sid : String) (s s' : MemoryStore) (ids : List String) (j : String)
      → delete_tree digest allow_active before_delete expected sid s ≡ (ok ids, s')
      → (get_header j s' ≡ (if has ids j then none else get_header j s))
        × (log_of s' j ≡ (if has ids j then [] else log_of s j))
        × (is_deleted j s' ≡ (has ids j || is_deleted j s))
  unfolding delete_tree get_header is_deleted
  delete_tree_done sid s s' ids j h = elim (Option-cases (Dict.get s.headers sid)) [
    | inl p ↦ ground arith
    | inr (root, p) ↦
        let (q, e) = delete_tree-dropped sid root s s' ids p h in
        ground (arith, get-dropped ids s j, log_of-dropped ids s j, has-dropped ids s j)
  ]

  -- After a deletion of the session `j`, among others, `create` refuses a header with the id `j`,
  -- and one whose parent is `j`, and changes nothing.
  pub create_after_delete :
      (sid : String) (s s' : MemoryStore) (ids : List String) (header : SessionHeader) (j : String)
      → delete_tree digest allow_active before_delete expected sid s ≡ (ok ids, s')
      → has ids j ≡ true
      → (header.id ≡ j) ⊎ (header.parent_id ≡ some j)
      → (x : Error) × (create header s' ≡ (raise x, s'))
  unfolding create is_deleted
  create_after_delete sid s s' ids header j h m w =
      let d : has s'.deleted j ≡ (has ids j || has s.deleted j) =
        (delete_tree_done sid s s' ids j h).2 in
      create_refused header j s' (ground arith) w

  pub delete_tree-delete_checks :
      (sid : String) (root : SessionHeader) (s s' : MemoryStore) (ids : List String)
      → Dict.get s.headers sid ≡ some root
      → delete_tree digest allow_active before_delete expected sid s ≡ (ok ids, s')
      → delete_checks digest allow_active before_delete expected sid root s ≡ ok ids
  delete_tree-delete_checks sid root s s' ids p h = (delete_tree-dropped sid root s s' ids p h).0

  pub delete_checks-ok :
      (sid : String) (root : SessionHeader) (s : MemoryStore) (ids : List String)
      → delete_checks digest allow_active before_delete expected sid root s ≡ ok ids
      → (is_top sid root ≡ true)
        × (tree_ids (Dict.values s.headers) sid ≡ ok ids)
        × (tree : List (String × SessionHeader)) × (traverse (header_at s) ids ≡ ok tree)
        × (check_revision expected (tree_revision digest (headers_of tree)) ≡ ok tt)
        × ((allow_active || not (any (is_active s) tree)) ≡ true)
  unfolding delete_checks
  delete_checks-ok sid root s ids h = elim (Outcome-cases (tree_ids (Dict.values s.headers) sid)) [
    | inr (x, a) ↦ absurd (ground arith)
    | inl (l, a) ↦ elim (Outcome-cases (traverse (header_at s) l)) [
      | inr (x, b) ↦ absurd (ground arith)
      | inl (tree, b) ↦ (ground arith, ground arith, tree, ground arith, ground arith, ground arith)
    ]
  ]

-- ===== src/Cleanup.antt =====
-- cleanup.py: which session trees a clean-up selects, and the revision of a tree. `uuid` is as in
-- Header.antt, with UUIDs written as their hexadecimal text; `digest` is the SHA-256 of the JSON of
-- headers; `cursor_of` decodes the base64 text of a cursor or raises `ValueError`.
mod Report
use Prim.Native.String.{compare}
use text.Mathlib.Text.{is_le}
use tantra.Prelude.{
  ℕ, ◌++◌, String, Bool, true, false, ◌&&◌, ◌||◌, not, Option, none, some, List, [], ◌∷◌, has,
  filter, is_some, is_text, ltb, leb, eqb, max, length, suc, ◌==◌, if◌then◌else◌, any,
}
use tantra.Prelude.Dict
use tantra.Prelude.Dict.{Dict}
use tantra.Prelude.Outcome.{
  Outcome, ok, raise, raise_if, or_raise, ◌>>=◌, ◌>>◌, cleanup_changed, tantra_error, value_error,
  type_error, no_end,
}
use tantra.Prelude.Sorting.{sorted}
use tantra.Prelude.Walk.{walk}
use tantra.Json.{Json, array, object, equal, is_boolean}
use tantra.Events.{SessionHeader}

pub record CleanupSelector : Type 0 where
  pub root_ids : Option (List String)
  pub metadata : Option (Dict Json)
  pub inactive_before : Option ℕ

pub record CleanupCandidate : Type 0 where
  pub root_id : String
  pub created_at : ℕ
  pub updated_at : ℕ
  pub revision : String
  pub active : Bool

abbrev pub is_scalar : Json → Bool
is_scalar (array _) = false
is_scalar (object _) = false
is_scalar _ = true

-- `dict.fromkeys`
abbrev pub dedup : List String → List String → List String
dedup seen [] = []
dedup seen (x ∷ xs) = if has seen x then dedup seen xs else x ∷ dedup (seen ++ x ∷ []) xs

abbrev pub unique : Option (List String) → Option (List String)
unique none = none
unique (some ids) = some (dedup [] ids)

abbrev pub non_scalar : Option (Dict Json) → Bool
non_scalar none = false
non_scalar (some fields) = any (λ e. not (is_scalar e.1)) fields

abbrev pub is_scoped : Option (Dict Json) → Bool
is_scoped (some (_ ∷ _)) = true
is_scoped _ = false

-- `CleanupSelector.__post_init__`, on arguments of the annotated types
unfoldable pub make_selector :
    Option (List String) → Option (Dict Json) → Option ℕ → Outcome CleanupSelector
make_selector root_ids metadata inactive_before = do
  raise_if (non_scalar metadata) type_error
  raise_if (not (is_some root_ids || is_scoped metadata || is_some inactive_before)) value_error
  ok (record { root_ids = unique root_ids; metadata = metadata; inactive_before = inactive_before })

unfoldable pub check_revision : Option String → String → Outcome (Unit {0})
check_revision none actual = ok tt
check_revision (some expected) actual = raise_if (not (expected == actual)) cleanup_changed

abbrev pub by_id : SessionHeader → SessionHeader → Bool
by_id a b = is_le (compare a.id b.id)

unfoldable pub tree_revision : (List SessionHeader → String) → List SessionHeader → String
tree_revision digest headers = digest (sorted by_id headers)

-- one wanted field of `cleanup_matches`: a Boolean never matches a number
abbrev pub field_matches : SessionHeader → Dict Json → Bool
field_matches h [] = true
field_matches h ((key, wanted) ∷ rest) = elim (Dict.get h.metadata key) [
  | none ↦ false
  | some value ↦
      (is_boolean value && is_boolean wanted || not (is_boolean value) && not (is_boolean wanted))
      && equal value wanted
      && field_matches h rest
]

abbrev pub or_empty : Option (Dict Json) → Dict Json
or_empty none = []
or_empty (some d) = d

abbrev pub is_root : SessionHeader → Bool
is_root h = not (is_some h.parent_id) && (not (is_some h.root_id) || is_text h.root_id h.id)

abbrev pub is_child_of : SessionHeader → SessionHeader → Bool
is_child_of parent h = is_text h.parent_id parent.id

abbrev pub oldest_first : SessionHeader → SessionHeader → Bool
oldest_first a b =
    ltb a.created_at b.created_at || eqb a.created_at b.created_at && is_le (compare a.id b.id)

-- `(root.created_at, root.id) <= cursor`
abbrev pub up_to : Option (ℕ × String) → SessionHeader → Bool
up_to none h = false
up_to (some (created, id)) h =
    ltb h.created_at created || eqb h.created_at created && is_le (compare h.id id)

-- `max(header.updated_at for header in tree)`
abbrev pub last_update : List SessionHeader → ℕ
last_update [] = 0
last_update (h ∷ hs) = max h.updated_at (last_update hs)

abbrev pub too_recent : Option ℕ → List SessionHeader → Bool
too_recent none tree = false
too_recent (some limit) tree = leb limit (last_update tree)

-- `{header.id: header for header in headers}`: the last header of an id counts
abbrev pub index : List SessionHeader → Dict SessionHeader → Dict SessionHeader
index [] d = d
index (h ∷ hs) d = index hs (Dict.put d h.id h)

abbrev pub is_live_child : Dict SessionHeader → String → Bool
is_live_child d root = elim (Dict.get d root) [ none ↦ false | some h ↦ not (is_root h) ]

abbrev pub names_child : Option (List String) → Dict SessionHeader → Bool
names_child none d = false
names_child (some roots) d = any (is_live_child d) roots

abbrev pub read_cursor :
    (String → Outcome (ℕ × String)) → Option String → Outcome (Option (ℕ × String))
read_cursor cursor_of none = ok none
read_cursor cursor_of (some after) = do c ← cursor_of after; ok (some c)

module _ (uuid : String → Option String) where
  abbrev pub is_named : Option (List String) → SessionHeader → Outcome Bool
  is_named none h = ok true
  is_named (some roots) h = elim (uuid h.id) [
    | none ↦ raise value_error
    | some u ↦ ok (has roots u)
  ]

  unfoldable pub cleanup_matches : SessionHeader → CleanupSelector → Outcome Bool
  cleanup_matches h selector = do
    named ← is_named selector.root_ids h
    ok (named && field_matches h (or_empty selector.metadata))

  -- the tree below a root, in the order of the walk
  unfoldable pub tree_of : List SessionHeader → SessionHeader → Outcome (List SessionHeader)
  tree_of headers root =
      or_raise (walk (λ h. filter (is_child_of h) headers) (suc (length headers)) (root ∷ []))
        no_end

  -- the tree of a root that matches, unless it is too recent
  unfoldable pub fresh_tree :
      List SessionHeader
      → CleanupSelector
      → SessionHeader
      → Bool
      → Outcome (List (List SessionHeader))
  unfolding tree_of
  fresh_tree headers selector root false = ok []
  fresh_tree headers selector root true = do
    tree ← tree_of headers root
    ok (if too_recent selector.inactive_before tree then [] else tree ∷ [])

  -- the body of the loop over the sorted roots: the trees that it appends, at most one
  unfoldable pub consider :
      List SessionHeader
      → CleanupSelector
      → Option (ℕ × String)
      → SessionHeader
      → Outcome (List (List SessionHeader))
  unfolding cleanup_matches fresh_tree
  consider headers selector cursor root =
      if up_to cursor root
      then ok []
      else cleanup_matches root selector >>= fresh_tree headers selector root

  unfoldable pub select_trees :
      List SessionHeader
      → CleanupSelector
      → Option (ℕ × String)
      → List SessionHeader
      → Outcome (List (List SessionHeader))
  unfolding consider
  select_trees headers selector cursor [] = ok []
  select_trees headers selector cursor (root ∷ roots) = do
    trees ← consider headers selector cursor root
    rest ← select_trees headers selector cursor roots
    ok (trees ++ rest)

  unfoldable pub cleanup_trees :
      (String → Outcome (ℕ × String))
      → List SessionHeader
      → CleanupSelector
      → Option String
      → Outcome (List (List SessionHeader))
  unfolding select_trees
  cleanup_trees cursor_of headers selector after = do
    raise_if (names_child selector.root_ids (index headers [])) tantra_error
    cursor ← read_cursor cursor_of after
    select_trees headers selector cursor (sorted oldest_first (filter is_root headers))

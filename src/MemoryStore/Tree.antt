-- ===== src/MemoryStore/Tree.antt =====
-- `MemoryStore.delete_tree` and `select_cleanup`. `digest`, `cursor_of` and `uuid` are as in
-- Cleanup.antt. `before_delete` is the caller's callback: it may raise.
use Prim.Native.String.{compare}
use text.Mathlib.Text.{is_le}
use tantra.Prelude.{
  ℕ, suc, String, Bool, true, false, ◌||◌, ◌&&◌, not, Option, none, some, List, [], ◌∷◌, any,
  filter, length, is_some, is_text, map, take, if◌then◌else◌,
}
use tantra.Prelude.Dict
use tantra.Prelude.Dict.{Dict}
use tantra.Prelude.Outcome.{
  Outcome, ok, raise, raise_if, or_raise, traverse, ◌>>=◌, ◌>>◌, session_busy, tantra_error,
  cleanup_changed, key_error, no_end,
}
use tantra.Prelude.Sorting.{sorted}
use tantra.Prelude.Walk.{walk}
use tantra.Events.{SessionHeader, SessionStatus}
use tantra.Journal.{reduce_journal}
use tantra.Cleanup.{
  CleanupSelector, CleanupCandidate, check_revision, tree_revision, last_update, cleanup_trees,
}
use tantra.MemoryStore.{MemoryStore, Result, log_of}

abbrev pub is_pending : SessionStatus → Bool
is_pending SessionStatus.queued = true
is_pending SessionStatus.running = true
is_pending SessionStatus.awaiting_input = true
is_pending _ = false

abbrev pub has_any {ℓ} : {A : Type ℓ} → List A → Bool
has_any [] = false
has_any (_ ∷ _) = true

-- whether work is under way or waits in the session `id` with the header `h`
unfoldable pub is_active : MemoryStore → String × SessionHeader → Bool
unfolding log_of
is_active s (id, h) =
    let journal = reduce_journal (map (λ item. item.event) (log_of s id)) in
    is_some h.pending_ask
    || is_pending h.status
    || is_some h.current_turn_id
    || has_any journal.pending
    || is_some journal.incomplete

abbrev pub text_le : String → String → Bool
text_le a b = is_le (compare a b)

-- `sorted(h.id for h in headers if h.parent_id == current)`
unfoldable pub child_ids : List SessionHeader → String → List String
child_ids headers current =
    sorted text_le (map (λ h. h.id) (filter (λ h. is_text h.parent_id current) headers))

-- `ids` when the loop ends
unfoldable pub tree_ids : List SessionHeader → String → Outcome (List String)
unfolding child_ids
tree_ids headers sid = or_raise (walk (child_ids headers) (suc (length headers)) (sid ∷ [])) no_end

abbrev pub erase : String → MemoryStore → MemoryStore
erase id s = record s {
  headers = Dict.remove s.headers id;
  events = Dict.remove s.events id;
  deleted = id ∷ s.deleted;
}

-- the last loop of `delete_tree`: `del` raises for an id without a header, after the earlier ones
-- were removed
unfoldable pub drop_all : List String → MemoryStore → Result (Unit {0})
drop_all [] s = (ok tt, s)
drop_all (id ∷ ids) s =
    let rest = drop_all ids (erase id s) in
    elim (Dict.get s.headers id) [ none ↦ (raise key_error, s) | some _ ↦ rest ]

-- `root.parent_id is None and root.root_id in (None, sid)`
abbrev pub is_top : String → SessionHeader → Bool
is_top sid root =
    not (is_some root.parent_id) && (not (is_some root.root_id) || is_text root.root_id sid)

-- `(id, self._headers[id])`
abbrev pub header_at : MemoryStore → String → Outcome (String × SessionHeader)
header_at s id = elim (Dict.get s.headers id) [ none ↦ raise key_error | some h ↦ ok (id, h) ]

abbrev pub headers_of : List (String × SessionHeader) → List SessionHeader
headers_of = map (λ e. e.1)

module _ (digest : List SessionHeader → String) (allow_active : Bool)
    (before_delete : List String → Outcome (Unit {0})) (expected : Option String) where
  -- what comes before the deletion: the ids to delete, or the refusal
  unfoldable pub delete_checks : String → SessionHeader → MemoryStore → Outcome (List String)
  delete_checks sid root s = do
    raise_if (not (is_top sid root)) (if is_some expected then cleanup_changed else tantra_error)
    ids ← tree_ids (Dict.values s.headers) sid
    tree ← traverse (header_at s) ids
    check_revision expected (tree_revision digest (headers_of tree))
    raise_if (not allow_active && any (is_active s) tree) (session_busy sid)
    before_delete ids
    ok ids

  unfoldable pub delete_tree : String → MemoryStore → Result (List String)
  unfolding drop_all
  delete_tree sid s = elim (Dict.get s.headers sid) [
    | none ↦ (ok [], s)
    | some root ↦ elim (delete_checks sid root s) [
      | raise x ↦ (raise x, s)
      | ok ids ↦
          let (r, s') = drop_all ids s in elim r [ raise x ↦ (raise x, s') | ok _ ↦ (ok ids, s') ]
    ]
  ]

-- one row of `select_cleanup`; the tree of a root begins with it
unfoldable pub candidate :
    (List SessionHeader → String) → MemoryStore → List SessionHeader → Outcome CleanupCandidate
candidate digest s [] = raise key_error
candidate digest s (root ∷ rest) = ok (record {
  root_id = root.id;
  created_at = root.created_at;
  updated_at = last_update (root ∷ rest);
  revision = tree_revision digest (root ∷ rest);
  active = any (λ h. is_active s (h.id, h)) (root ∷ rest);
})

-- `limit` below zero counts as zero.
unfoldable pub select_cleanup :
    (List SessionHeader → String)
    → (String → Option String)
    → (String → Outcome (ℕ × String))
    → CleanupSelector
    → ℕ
    → Option String
    → MemoryStore
    → Outcome (List CleanupCandidate)
unfolding candidate
select_cleanup digest uuid cursor_of selector limit after s = do
  trees ← cleanup_trees uuid cursor_of (Dict.values s.headers) selector after
  traverse (candidate digest s) (take limit trees)

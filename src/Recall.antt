-- ===== src/Recall.antt =====
-- memory.py: `BuiltinMemory` on a `MemoryStore`, without an embedder, and the filter of `recall`.
-- `casefold` is Python's `str.casefold`; the id of a new row is `uuid4().hex` at the time of the
-- call. The ranking of hits, which compares floats, and the embeddings are not modelled.
mod Tests
pub mod Rows
use tantra.Prelude.{
  ℕ, String, Bool, true, false, ◌&&◌, not, Option, none, some, List, all, has, if◌then◌else◌,
  is_some, map, ◌==◌,
}
use tantra.Prelude.Dict.{Dict}
use tantra.Prelude.Outcome.{raise, ok, tantra_error}
use tantra.Json.{Json}
use tantra.Memories.{MemoryRecord, matches_metadata, is_live}
use tantra.MemoryStore.{MemoryStore, Result, memory_get, memory_put}

pub record MemoryWrite : Type 0 where
  pub kind : String
  pub title : String
  pub body : String
  pub tags : List String
  pub entities : List String
  pub metadata : Dict Json

abbrev pub row_of : String → ℕ → MemoryWrite → MemoryRecord
row_of id now m = record {
  id = id;
  kind = m.kind;
  title = m.title;
  body = m.body;
  tags = m.tags;
  entities = m.entities;
  metadata = m.metadata;
  created_at = now;
  deleted = false;
  superseded_by = none;
}

unfoldable pub write : String → ℕ → MemoryWrite → MemoryStore → MemoryStore
write id now m s = memory_put (row_of id now m) s

-- the refusals of `supersede`
abbrev pub can_supersede : MemoryRecord → Option (Dict Json) → Bool
can_supersede old scope =
    matches_metadata old.metadata scope && not old.deleted && not (is_some old.superseded_by)

unfoldable pub supersede :
    String → ℕ → String → MemoryWrite → Option (Dict Json) → MemoryStore → Result String
supersede id now old_id new scope s = elim (memory_get old_id s) [
  | none ↦ (raise tantra_error, s)
  | some old ↦
      if can_supersede old scope
      then (ok id, memory_put (record old { superseded_by = some id }) (write id now new s))
      else (raise tantra_error, s)
]

-- `delete`, which never raises
unfoldable pub delete : String → Option (Dict Json) → MemoryStore → Bool × MemoryStore
delete mid scope s = elim (memory_get mid s) [
  | none ↦ (false, s)
  | some row ↦
      if matches_metadata row.metadata scope
      then (true, memory_put (record row { deleted = true }) s)
      else (false, s)
]

-- `_Filter`
pub record RowFilter : Type 0 where
  pub kind : Option String
  pub tags : Option (List String)
  pub entity : Option String
  pub metadata : Option (Dict Json)

module _ (casefold : String → String) where
  abbrev pub kind_passes : Option String → String → Bool
  kind_passes none kind = true
  kind_passes (some wanted) kind = casefold kind == wanted

  -- no tags, or an empty set of them, are no condition
  abbrev pub tags_pass : Option (List String) → List String → Bool
  tags_pass none tags = true
  tags_pass (some wanted) tags = all (has (map casefold tags)) wanted

  abbrev pub entity_passes : Option String → List String → Bool
  entity_passes none entities = true
  entity_passes (some wanted) entities = has (map casefold entities) wanted

  unfoldable pub passes : RowFilter → MemoryRecord → Bool
  passes rule row =
      is_live row
      && kind_passes rule.kind row.kind
      && tags_pass rule.tags row.tags
      && entity_passes rule.entity row.entities
      && matches_metadata row.metadata rule.metadata

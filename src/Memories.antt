-- ===== src/Memories.antt =====
-- memory.py and stores/base.py: memory rows, and `select_memories`. The `embedding`, a list of
-- floats that the modelled code only stores, is left out.
use tantra.Prelude.{
  ℕ, String, Bool, true, ◌&&◌, not, Option, none, some, List, all, filter, is_some, if◌then◌else◌,
}
use tantra.Prelude.Dict
use tantra.Prelude.Dict.{Dict}
use tantra.Json.{Json, equal}

pub record MemoryRecord : Type 0 where
  pub id : String
  pub kind : String
  pub title : String
  pub body : String
  pub tags : List String
  pub entities : List String
  pub metadata : Dict Json
  pub created_at : ℕ
  pub deleted : Bool
  pub superseded_by : Option String

-- `metadata.get(key, _MISSING) == value`: a missing key never matches
abbrev pub holds : Dict Json → String × Json → Bool
holds metadata (key, value) = elim (Dict.get metadata key) [
  | none ↦ Bool.false
  | some v ↦ equal v value
]

unfoldable pub matches_metadata : Dict Json → Option (Dict Json) → Bool
matches_metadata metadata none = true
matches_metadata metadata (some wanted) = all (holds metadata) wanted

abbrev pub is_live : MemoryRecord → Bool
is_live r = not r.deleted && not (is_some r.superseded_by)

unfoldable pub select_memories : List MemoryRecord → Option (Dict Json) → Bool → List MemoryRecord
unfolding matches_metadata
select_memories rows metadata include_dead =
    let live = if include_dead then rows else filter is_live rows in
    filter (λ row. matches_metadata row.metadata metadata) live

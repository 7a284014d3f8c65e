-- ===== src/Recall/Rows.antt =====
-- What becomes of a row that is superseded or deleted. A store keeps each row under its id.
use tantra.Prelude.{
  ℕ, String, ◌≡◌, ◌≢◌, true, false, inl, inr, Option, some, arith, Bool-cases, eq_iff,
}
use tantra.Prelude.Dict
use tantra.Prelude.Dict.{Dict, get-put}
use tantra.Prelude.Outcome.{ok}
use tantra.Json.{Json}
use tantra.Memories.{MemoryRecord, is_live, matches_metadata}
use tantra.MemoryStore.{MemoryStore, memory_get, memory_put}
use tantra.Recall.{MemoryWrite, RowFilter, row_of, write, supersede, delete, can_supersede, passes}

module _ (casefold : String → String) (rule : RowFilter) where
  -- When `supersede` returns an id, of a row that stands under its own id, and the new row's id is
  -- another, then the old row is still there, names the new one and passes no filter; the new row
  -- is there, as it was written; and the old row was live before.
  pub supersede_done :
      (id : String) (now : ℕ) (old_id : String) (new : MemoryWrite) (scope : Option (Dict Json))
      (s s' : MemoryStore) (got : String) (old : MemoryRecord)
      → memory_get old_id s ≡ some old
      → old.id ≡ old_id
      → id ≢ old_id
      → supersede id now old_id new scope s ≡ (ok got, s')
      → (memory_get old_id s' ≡ some (record old { superseded_by = some got }))
        × (passes casefold rule (record old { superseded_by = some got }) ≡ false)
        × (memory_get got s' ≡ some (row_of got now new))
        × (is_live old ≡ true)
  unfolding supersede write memory_get memory_put passes
  supersede_done id now old_id new scope s s' got old p n d h =
      elim (Bool-cases (can_supersede old scope)) [
        | inr q ↦ absurd (ground arith)
        | inl q ↦
            let first = get-put s.memories id (row_of id now new) in
            let second =
              get-put (Dict.put s.memories id (row_of id now new)) old.id
                (record old { superseded_by = some id }) in
            (
              ground (arith, second old_id, eq_iff old.id old_id),
              ground arith,
              ground (arith, second id, first id, eq_iff old.id id, eq_iff id id),
              ground arith,
            )
      ]

  -- When `delete` says that a row, which stands under its own id, is gone, the row is still there,
  -- is marked and passes no filter.
  pub delete_done :
      (mid : String) (scope : Option (Dict Json)) (s s' : MemoryStore) (row : MemoryRecord)
      → memory_get mid s ≡ some row
      → row.id ≡ mid
      → delete mid scope s ≡ (true, s')
      → (memory_get mid s' ≡ some (record row { deleted = true }))
        × (passes casefold rule (record row { deleted = true }) ≡ false)
  unfolding delete memory_get memory_put passes
  delete_done mid scope s s' row p n h = elim (Bool-cases (matches_metadata row.metadata scope)) [
    | inr q ↦ absurd (ground arith)
    | inl q ↦ (
      ground
          (arith, get-put s.memories row.id (record row { deleted = true }) mid, eq_iff row.id mid),
      ground arith,
    )
  ]

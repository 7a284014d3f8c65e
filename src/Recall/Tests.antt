-- ===== src/Recall/Tests.antt =====
-- A store of one row, which is superseded, and then deleted.
use tantra.Prelude.{String, ◌≡◌, refl, true, false, none, some, [], ◌∷◌, eq_iff, arith}
use tantra.Prelude.Dict
use tantra.Prelude.Outcome.{ok}
use tantra.Memories.{MemoryRecord, is_live, matches_metadata}
use tantra.MemoryStore.{MemoryStore, empty, memory_get, memory_put}
use tantra.Recall.{MemoryWrite, RowFilter, row_of, write, supersede, delete, passes}
use tantra.Recall.Rows.{supersede_done, delete_done}

abbrev fact : String → MemoryWrite
fact body = record {
  kind = "fact";
  title = "port";
  body = body;
  tags = [];
  entities = [];
  metadata = [];
}

abbrev old_row : MemoryRecord
old_row = row_of "m1" 3 (fact "80")

abbrev one_row : MemoryStore
one_row = record empty { memories = ("m1", old_row) ∷ [] }

abbrev two_rows : MemoryStore
two_rows = record empty {
  memories =
      ("m1", record old_row { superseded_by = some "m2" })
      ∷ ("m2", row_of "m2" 4 (fact "443"))
      ∷ [];
}

abbrev deleted_row : MemoryStore
deleted_row = record empty { memories = ("m1", record old_row { deleted = true }) ∷ [] }

abbrev any_row : RowFilter
any_row = record { kind = none; tags = none; entity = none; metadata = none }

row_known : memory_get "m1" one_row ≡ some old_row
unfolding memory_get Dict.get
row_known = refl

superseded : supersede "m2" 4 "m1" (fact "443") none one_row ≡ (ok "m2", two_rows)
unfolding supersede write memory_get memory_put matches_metadata Dict.get Dict.put
superseded = refl

deleted : delete "m1" none one_row ≡ (true, deleted_row)
unfolding delete memory_get memory_put matches_metadata Dict.get Dict.put
deleted = refl

supersede_done_example :
    (memory_get "m1" two_rows ≡ some (record old_row { superseded_by = some "m2" }))
    × (passes (λ k. k) any_row (record old_row { superseded_by = some "m2" }) ≡ false)
    × (memory_get "m2" two_rows ≡ some (row_of "m2" 4 (fact "443")))
    × (is_live old_row ≡ true)
supersede_done_example =
    supersede_done (λ k. k) any_row "m2" 4 "m1" (fact "443") none one_row two_rows "m2" old_row
      row_known refl (λ e. ground (arith, eq_iff "m2" "m1")) superseded

delete_done_example :
    (memory_get "m1" deleted_row ≡ some (record old_row { deleted = true }))
    × (passes (λ k. k) any_row (record old_row { deleted = true }) ≡ false)
delete_done_example =
    delete_done (λ k. k) any_row "m1" none one_row deleted_row old_row row_known refl deleted

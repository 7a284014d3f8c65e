-- ===== src/Listing.antt =====
-- stores/base.py, `select_headers`: the newest sessions first, after a cursor. `limit` is taken to
-- be zero or more.
use Prim.Native.String.{compare}
use text.Mathlib.Text.{is_lt, is_le}
use tantra.Prelude.{
  ℕ, String, Bool, ◌&&◌, ◌||◌, Option, none, some, List, all, filter, find, take, is_text, ltb, eqb,
  ◌==◌,
}
use tantra.Prelude.Dict
use tantra.Prelude.Dict.{Dict}
use tantra.Prelude.Sorting.{sorted}
use tantra.Json.{Json, null, equal}
use tantra.Events.{SessionHeader}

-- `(a.created_at, a.id) < (b.created_at, b.id)`
abbrev pub is_before : SessionHeader → SessionHeader → Bool
is_before a b =
    ltb a.created_at b.created_at || eqb a.created_at b.created_at && is_lt (compare a.id b.id)

abbrev pub newest_first : SessionHeader → SessionHeader → Bool
newest_first a b =
    ltb b.created_at a.created_at || eqb a.created_at b.created_at && is_le (compare b.id a.id)

-- `h.metadata.get(k) == v`: a missing key reads as `None`
abbrev pub has_value : SessionHeader → String × Json → Bool
has_value h (k, v) = equal (Dict.get_or h.metadata k null) v

abbrev pub after_cursor : Option String → List SessionHeader → List SessionHeader
after_cursor none rows = rows
after_cursor (some before) rows = elim (find (λ h. h.id == before) rows) [
  | none ↦ rows
  | some cursor ↦ filter (λ h. is_before h cursor) rows
]

abbrev pub of_parent : Option String → List SessionHeader → List SessionHeader
of_parent none rows = rows
of_parent (some parent) rows = filter (λ h. is_text h.parent_id parent) rows

abbrev pub with_metadata : Option (Dict Json) → List SessionHeader → List SessionHeader
with_metadata none rows = rows
with_metadata (some wanted) rows = filter (λ h. all (has_value h) wanted) rows

unfoldable pub select_headers :
    List SessionHeader → Option (Dict Json) → Option String → ℕ → Option String → List SessionHeader
select_headers headers metadata parent_id limit before =
    let rows = sorted newest_first headers in
    take limit (with_metadata metadata (of_parent parent_id (after_cursor before rows)))

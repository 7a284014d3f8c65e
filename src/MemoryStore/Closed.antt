-- ===== src/MemoryStore/Closed.antt =====
-- A deletion takes whole trees: the walk of `delete_tree` reaches the children of all it reaches.
use tantra.Prelude.{
  ℕ, zero, suc, String, ◌≡◌, refl, ap, sym, ◌∙◌, subst, Bool, true, false, ◌⊎◌, inl, inr, Option,
  none, some, List, [], ◌∷◌, ◌++◌, map, filter, arith, any, has, ◌==◌, eq_iff, eq_refl, Bool-cases,
  Option-cases, if◌then◌else◌, length, is_text, has-append,
}
use tantra.Prelude.Dict
use tantra.Prelude.Dict.{Dict}
use tantra.Prelude.Sorting.{sorted, insert}
use tantra.Prelude.Walk.{walk}
use tantra.Prelude.Outcome.{Outcome, Outcome-cases, ok, traverse}
use tantra.Events.{SessionHeader}
use tantra.Cleanup.{tree_revision}
use tantra.MemoryStore.{MemoryStore, get_header}
use tantra.MemoryStore.Tree.{
  delete_tree, child_ids, tree_ids, text_le, is_active, header_at, headers_of, is_top,
}
use tantra.MemoryStore.Invariant.{IsValid}
use tantra.MemoryStore.Deletion.{
  delete_tree_done, delete_tree-delete_checks, delete_checks-ok, check_revision-ok, Expects,
}

module _ (le : String → String → Bool) where
  has-insert :
      (x : String) (xs : List String) (y : String) → has (insert le x xs) y ≡ has (x ∷ xs) y
  unfolding insert
  has-insert x [] y = refl
  has-insert x (z ∷ zs) y = ground (arith, has-insert x zs y)

  has-sorted : (xs : List String) (y : String) → has (sorted le xs) y ≡ has xs y
  unfolding sorted
  has-sorted [] y = refl
  has-sorted (x ∷ xs) y = ground (arith, has-insert x (sorted le xs) y, has-sorted xs y)

module _ (kids : String → List String) where
  walk-starts :
      (fuel : ℕ) (queue ids : List String) (y : String)
      → walk kids fuel queue ≡ some ids
      → has queue y ≡ true
      → has ids y ≡ true
  unfolding walk
  walk-starts zero [] ids y h m = absurd (ground arith)
  walk-starts zero (x ∷ queue) ids y h m = absurd (ground arith)
  walk-starts (suc fuel) [] ids y h m = absurd (ground arith)
  walk-starts (suc fuel) (x ∷ queue) ids y h m =
      elim (Option-cases (walk kids fuel (queue ++ kids x))) [
        | inl p ↦ absurd (ground arith)
        | inr (rest, p) ↦
            ground (arith, walk-starts fuel (queue ++ kids x) rest y p, has-append queue (kids x) y)
      ]

  walk-closed :
      (fuel : ℕ) (queue ids : List String) (x y : String)
      → walk kids fuel queue ≡ some ids
      → has ids x ≡ true
      → has (kids x) y ≡ true
      → has ids y ≡ true
  unfolding walk
  walk-closed zero [] ids x y h m k = absurd (ground arith)
  walk-closed zero (z ∷ queue) ids x y h m k = absurd (ground arith)
  walk-closed (suc fuel) [] ids x y h m k = absurd (ground arith)
  walk-closed (suc fuel) (z ∷ queue) ids x y h m k =
      elim (Option-cases (walk kids fuel (queue ++ kids z))) [
        | inl p ↦ absurd (ground arith)
        | inr (rest, p) ↦ elim (Bool-cases (z == x)) [
          | inl e ↦
              let same : z ≡ x = (eq_iff z x).0 e in
              let child : has (kids z) y ≡ true = subst (λ i. has (kids i) y ≡ true) (sym same) k in
              ground
                (arith, walk-starts fuel (queue ++ kids z) rest y p, has-append queue (kids z) y)
          | inr e ↦ ground (arith, walk-closed fuel (queue ++ kids z) rest x y p)
        ]
      ]

has-children :
    (d : Dict SessionHeader) (k p : String) (c : SessionHeader)
    → Dict.get d k ≡ some c
    → c.id ≡ k
    → c.parent_id ≡ some p
    → has
        (map (λ (h : SessionHeader). h.id) (filter (λ h. is_text h.parent_id p) (Dict.values d)))
        k
      ≡ true
unfolding Dict.get
has-children [] k p c g i h = absurd (ground arith)
has-children ((j, b) ∷ d) k p c g i h = elim (Bool-cases (j == k)) [
  | inl e ↦
      let same : b ≡ c = ground arith in
      let child : is_text b.parent_id p ≡ true =
        subst (λ (x : SessionHeader). is_text x.parent_id p ≡ true) (sym same) (rw h (eq_refl p)) in
      let own : b.id ≡ k = ap (λ (x : SessionHeader). x.id) same ∙ i in
      rw child (rw own (rw (eq_refl k) refl))
  | inr e ↦
      let rest = has-children d k p c (ground arith) i h in
      elim (Bool-cases (is_text b.parent_id p)) [ inr q ↦ rw q rest | inl q ↦ rw q (ground arith) ]
]

tree_ids-closed :
    (s : MemoryStore) (sid k p : String) (ids : List String) (c : SessionHeader)
    → IsValid s
    → tree_ids (Dict.values s.headers) sid ≡ ok ids
    → Dict.get s.headers k ≡ some c
    → c.parent_id ≡ some p
    → has ids p ≡ true
    → has ids k ≡ true
unfolding tree_ids child_ids
tree_ids-closed s sid k p ids c v w g h m =
    let headers : List SessionHeader = Dict.values s.headers in
    walk-closed (child_ids headers) (suc (length headers)) (sid ∷ []) ids p k (ground arith) m (
      has-sorted text_le
        (map (λ (x : SessionHeader). x.id) (filter (λ x. is_text x.parent_id p) headers)) k
      ∙ has-children s.headers k p c g (v.named k c g) h)

module _ (P : String × SessionHeader → Bool) where
  -- what a test of none of the tree says of one session of it
  traverse-at :
      (s : MemoryStore) (ids : List String) (tree : List (String × SessionHeader)) (j : String)
      → traverse (header_at s) ids ≡ ok tree
      → has ids j ≡ true
      → (h : SessionHeader) × (Dict.get s.headers j ≡ some h)
        × ((any P tree ≡ true) ⊎ (P (j, h) ≡ false))
  unfolding traverse
  traverse-at s [] tree j t m = absurd (ground arith)
  traverse-at s (id ∷ ids) tree j t m = elim (Option-cases (Dict.get s.headers id)) [
    | inl p ↦ absurd (ground arith)
    | inr (k, p) ↦ elim (Outcome-cases (traverse (header_at s) ids)) [
      | inr (x, q) ↦ absurd (ground arith)
      | inl (rest, q) ↦
          let whole : (id, k) ∷ rest ≡ tree = ground arith in
          elim (Bool-cases (id == j)) [
            | inl e ↦
                let same : id ≡ j = (eq_iff id j).0 e in
                (
                  k,
                  ap (Dict.get s.headers) (sym same) ∙ p,
                  subst (λ l. (any P l ≡ true) ⊎ (P (j, k) ≡ false)) whole
                      (subst (λ i. (any P ((id, k) ∷ rest) ≡ true) ⊎ (P (i, k) ≡ false)) same
                        (ground arith)),
                )
            | inr e ↦
                let (h, g, w) = traverse-at s ids rest j q (ground arith) in
                (h, g, subst (λ l. (any P l ≡ true) ⊎ (P (j, h) ≡ false)) whole (ground arith))
          ]
    ]
  ]

top_half :
    (sid : String) (root : SessionHeader)
    → is_top sid root ≡ true
    → (root.parent_id ≡ none) × ((root.root_id ≡ none) ⊎ (root.root_id ≡ some sid))
top_half sid root h = elim (Option-cases root.root_id) [
  | inl p ↦ (ground arith, inl p)
  | inr (id, p) ↦ (ground arith, inr (p ∙ ap some (grind (arith, eq_iff id sid))))
]

module _ (digest : List SessionHeader → String) (allow_active : Bool)
    (before_delete : List String → Outcome (Unit {0})) (expected : Option String) where
  -- A deletion of a known session that returns deleted a root, by its parent and by its root. Every
  -- session that it deleted was there, and had no work under way or waiting, unless `allow_active`;
  -- and the expected revision, if one was given, is that of the deleted sessions.
  pub delete_tree_checked :
      (sid j : String) (s s' : MemoryStore) (ids : List String) (root : SessionHeader)
      → delete_tree digest allow_active before_delete expected sid s ≡ (ok ids, s')
      → get_header sid s ≡ some root
      → has ids j ≡ true
      → (root.parent_id ≡ none)
        × ((root.root_id ≡ none) ⊎ (root.root_id ≡ some sid))
        × (h : SessionHeader) × (get_header j s ≡ some h)
        × ((allow_active ≡ true) ⊎ (is_active s (j, h) ≡ false))
        × (tree : List (String × SessionHeader)) × (traverse (header_at s) ids ≡ ok tree)
        × Expects expected (tree_revision digest (headers_of tree))
  unfolding get_header
  delete_tree_checked sid j s s' ids root t p m =
      let q =
        delete_tree-delete_checks digest allow_active before_delete expected sid root s s' ids p
          t in
      let (top, walked, tree, found, revised, quiet) =
        delete_checks-ok digest allow_active before_delete expected sid root s ids q in
      let (parentless, own) = top_half sid root top in
      let (h, g, w) = traverse-at (is_active s) s ids tree j found m in
      (
        parentless,
        own,
        h,
        g,
        ground arith,
        tree,
        found,
        check_revision-ok expected (tree_revision digest (headers_of tree)) revised,
      )

  -- A deletion of a known session of a valid store that returns deleted that session, and leaves no
  -- session whose parent it deleted.
  pub delete_tree_closed :
      (sid k p : String) (s s' : MemoryStore) (ids : List String) (root c : SessionHeader)
      → IsValid s
      → delete_tree digest allow_active before_delete expected sid s ≡ (ok ids, s')
      → get_header sid s ≡ some root
      → get_header k s' ≡ some c
      → c.parent_id ≡ some p
      → (has ids sid ≡ true) × (has ids p ≡ false)
  unfolding get_header tree_ids
  delete_tree_closed sid k p s s' ids root c v t r g h =
      let q =
        delete_tree-delete_checks digest allow_active before_delete expected sid root s s' ids r
          t in
      let (top, walked, tree, found, revised, quiet) =
        delete_checks-ok digest allow_active before_delete expected sid root s ids q in
      let headers : List SessionHeader = Dict.values s.headers in
      let left : Dict.get s'.headers k ≡ (if has ids k then none else Dict.get s.headers k) =
        (delete_tree_done digest allow_active before_delete expected sid s s' ids k t).0 in
      let kept : has ids k ≡ false = ground arith in
      let before : Dict.get s.headers k ≡ some c = ground arith in
      (
        walk-starts (child_ids headers) (suc (length headers)) (sid ∷ []) ids sid (ground arith)
            (rw (eq_refl sid) refl),
        elim (Bool-cases (has ids p)) [
          | inr a ↦ a
          | inl a ↦ absurd (
              let b : has ids k ≡ true = tree_ids-closed s sid k p ids c v walked before h a in
              ground arith)
        ],
      )

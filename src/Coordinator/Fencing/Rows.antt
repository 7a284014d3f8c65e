-- ===== src/Coordinator/Fencing/Rows.antt =====
-- What may become of a row of `coordinator_roots`.
use tantra.Prelude.{
  ◌<◌, String, ◌≡◌, refl, ap, sym, ◌∙◌, subst, true, false, ◌⊎◌, inl, inr, Option, none, some, ◌==◌,
  eq_iff, arith, Bool-cases, Option-cases,
}
use tantra.Prelude.Dict
use tantra.Prelude.Dict.{Dict, get-put, get-put_self}
use tantra.Coordinator.Database.{Database, RootRow, unowned, update_root}
use tantra.Coordinator.System.{Write}

-- The row stands at a later generation, or at this one with this owner or none.
abbrev pub Behind : Option RootRow → Write → Type 0
Behind none w = (true ≡ false)
Behind (some row) w =
    (w.generation < row.generation)
    ⊎ ((w.generation ≡ row.generation) × ((row.owner ≡ none) ⊎ (row.owner ≡ some w.instance)))

-- what may become of a row
abbrev pub Grows : RootRow → RootRow → Type 0
Grows row row' =
    (row.generation < row'.generation)
    ⊎ ((row.generation ≡ row'.generation) × ((row'.owner ≡ none) ⊎ (row'.owner ≡ row.owner)))

pub record Keeps (d d' : Dict RootRow) : Type 0 where
  pub at : (w : Write) → Behind (Dict.get d w.root) w → Behind (Dict.get d' w.root) w

pub Behind-Grows :
    (row row' : RootRow) (w : Write) → Grows row row' → Behind (some row) w → Behind (some row') w
Behind-Grows row row' w g b = ground arith

pub Keeps-put :
    (d : Dict RootRow) (root : String) (row row' : RootRow)
    → Dict.get d root ≡ some row
    → Grows row row'
    → Keeps d (Dict.put d root row')
Keeps-put d root row row' p g = record {
  at = λ w b. rw (get-put d root row' w.root) (elim (Bool-cases (root == w.root)) [
    | inl q ↦
        let e : root ≡ w.root = ground (arith, eq_iff root w.root) in
        let known : Dict.get d w.root ≡ some row = ap (Dict.get d) (sym e) ∙ p in
        rw q (Behind-Grows row row' w g (subst (λ r. Behind r w) known b))
    | inr q ↦ rw q b
  ]);
}

pub Keeps-insert :
    (d : Dict RootRow) (root : String) (row : RootRow)
    → Dict.get d root ≡ none
    → Keeps d (Dict.put d root row)
Keeps-insert d root row p = record {
  at = λ w b. rw (get-put d root row w.root) (elim (Bool-cases (root == w.root)) [
    | inl q ↦
        let e : root ≡ w.root = ground (arith, eq_iff root w.root) in
        let known : Dict.get d w.root ≡ none = ap (Dict.get d) (sym e) ∙ p in
        absurd (let f : true ≡ false = subst (λ r. Behind r w) known b in ground arith)
    | inr q ↦ rw q b
  ]);
}

pub Keeps-refl : (d : Dict RootRow) → Keeps d d
Keeps-refl d = record { at = λ w b. b }

pub Keeps-trans : {d e f : Dict RootRow} → Keeps d e → Keeps e f → Keeps d f
Keeps-trans h k = record { at = λ w b. k.at w (h.at w b) }

-- `acquire` begins with the insertion of a row.
pub Keeps-get_or :
    (d : Dict RootRow) (root : String) → Keeps d (Dict.put d root (Dict.get_or d root unowned))
Keeps-get_or d root = elim (Option-cases (Dict.get d root)) [
  | inl p ↦ rw (p, Dict.get_or) (Keeps-insert d root unowned p)
  | inr (row, p) ↦ rw (p, Dict.get_or) (Keeps-put d root row row p (inr (refl, inr refl)))
]

pub update_root-Keeps :
    (db : Database) (root : String) (f : RootRow → RootRow)
    → ((row : RootRow) → Grows row (f row))
    → Keeps db.roots (update_root root f db).roots
update_root-Keeps db root f g = elim (Option-cases (Dict.get db.roots root)) [
  | inl p ↦ rw (p, update_root) (Keeps-refl db.roots)
  | inr (row, p) ↦ rw (p, update_root) (Keeps-put db.roots root row (f row) p (g row))
]

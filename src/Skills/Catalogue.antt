-- ===== src/Skills/Catalogue.antt =====
-- What the index lists can be loaded.
use tantra.Prelude.{
  String, ◌≡◌, refl, subst, false, inl, inr, Option, none, some, List, [], ◌∷◌, ◌==◌, eq_refl, All,
  arith, Bool-cases, find, has, map,
}
use tantra.Prelude.Outcome.{ok, Outcome-cases}
use tantra.Skills.{Skill, SkillInfo, Folder, scan, scan_folders, info_of, index, load}

All-zip {ℓ κ} :
    {A : Type ℓ} {P Q R : A → Type κ} (f : (x : A) → P x → Q x → R x)
    → (xs : List A) → All P xs
    → All Q xs
    → All R xs
All-zip f [] p q = tt
All-zip f (x ∷ xs) p q = (f x p.0 q.0, All-zip f xs p.1 q.1)

All-mono {ℓ κ} :
    {A : Type ℓ} {P Q : A → Type κ} (f : (x : A) → P x → Q x) → (xs : List A) → All P xs → All Q xs
All-mono f [] p = tt
All-mono f (x ∷ xs) p = (f x p.0, All-mono f xs p.1)

abbrev pub IsNew : List String → String × Skill → Type 0
IsNew seen e = has seen e.1.name ≡ false

-- no two skills have the same name
abbrev pub Distinct : List (String × Skill) → Type 0
Distinct [] = Unit
Distinct (e ∷ es) = All (IsNew (e.1.name ∷ [])) es × Distinct es

abbrev IsFoundIn : List (String × Skill) → String × Skill → Type 0
IsFoundIn es e = find (λ x. x.1.name == e.1.name) es ≡ some e

IsFoundIn-Distinct : (es : List (String × Skill)) → Distinct es → All (IsFoundIn es) es
IsFoundIn-Distinct [] d = tt
IsFoundIn-Distinct (e ∷ es) d =
    (simp (eq_refl), All-zip (λ x p q. ground (arith, p, q)) es d.0 (IsFoundIn-Distinct es d.1))

scan_folders-Distinct :
    (seen : List String) (folders : List Folder)
    → All (IsNew seen) (scan_folders seen folders).entries
      × Distinct (scan_folders seen folders).entries
unfolding scan_folders
scan_folders-Distinct seen [] = (tt, tt)
scan_folders-Distinct seen (folder ∷ folders) = elim (Outcome-cases folder.parsed) [
  | inr (x, p) ↦ rw (p, scan_folders) (scan_folders-Distinct seen folders)
  | inl (skill, p) ↦ elim (Bool-cases (has seen skill.name)) [
    | inl q ↦ rw (p, scan_folders) (rw q (scan_folders-Distinct seen folders))
    | inr q ↦
        let (new, distinct) = scan_folders-Distinct (skill.name ∷ seen) folders in
        rw (p, scan_folders)
          (rw q (
            (
              q,
              All-mono (λ e h. ground (arith, h)) (scan_folders (skill.name ∷ seen) folders).entries
                  new,
            ),
            (
              All-mono (λ e h. ground (arith, h)) (scan_folders (skill.name ∷ seen) folders).entries
                  new,
              distinct,
            ),
          ))
  ]
]

module _ (files : String → List String) where
  -- `load` gives the skill that the index lists
  abbrev pub IsLoadable : Option (List Folder) → SkillInfo → Type 0
  IsLoadable root info =
      (skill : Skill) × (load files info.name root ≡ ok skill)
      × (skill.name ≡ info.name)
      × (skill.description ≡ info.description)

  load-IsLoadable :
      (folders : List Folder) (e : String × Skill)
      → IsFoundIn (scan_folders [] folders).entries e
      → IsLoadable (some folders) (info_of e)
  unfolding load scan
  load-IsLoadable folders (directory, skill) h =
      (record skill { files = files directory }, ground (arith, h), refl, refl)

  All-map_info :
      (P : SkillInfo → Type 0) (es : List (String × Skill))
      → All (λ e. P (info_of e)) es
      → All P (map info_of es)
  All-map_info P [] h = tt
  All-map_info P (e ∷ es) h = (h.0, All-map_info P es h.1)

  -- Each skill that `index` lists, `load` finds by its name, with the listed description.
  pub index-IsLoadable :
      (root : Option (List Folder)) (infos : List SkillInfo)
      → index root ≡ ok infos
      → All (IsLoadable root) infos
  unfolding index scan
  index-IsLoadable none infos h = absurd (ground arith)
  index-IsLoadable (some folders) infos h =
      let es : List (String × Skill) = (scan_folders [] folders).entries in
      let e : map info_of es ≡ infos = ground arith in
      subst (All (IsLoadable (some folders))) e (
        All-map_info (IsLoadable (some folders)) es (
          All-mono (λ x q. load-IsLoadable folders x q) es
            (IsFoundIn-Distinct es (scan_folders-Distinct [] folders).1)))

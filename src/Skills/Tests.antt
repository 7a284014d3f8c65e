-- ===== src/Skills/Tests.antt =====
-- A catalogue of two skills, a duplicate and a malformed file.
use tantra.Prelude.{String, ◌≡◌, refl, some, List, [], ◌∷◌, All}
use tantra.Prelude.Outcome.{ok, raise, tantra_error}
use tantra.Skills.{Skill, SkillInfo, Folder, index, scan, scan_folders}
use tantra.Skills.Catalogue.{IsLoadable, index-IsLoadable}

abbrev skill_of : String → String → Skill
skill_of name description = record { name = name; description = description; body = ""; files = [] }

abbrev folders : List Folder
folders =
    record { directory = "a"; parsed = ok (skill_of "plan" "how to plan") }
    ∷ record { directory = "b"; parsed = raise tantra_error }
    ∷ record { directory = "c"; parsed = ok (skill_of "plan" "another") }
    ∷ record { directory = "d"; parsed = ok (skill_of "write" "how to write") }
    ∷ []

abbrev infos : List SkillInfo
infos =
    record { name = "plan"; description = "how to plan" }
    ∷ record { name = "write"; description = "how to write" }
    ∷ []

two_listed : index (some folders) ≡ ok infos
unfolding index scan scan_folders
two_listed = refl

index-IsLoadable_example : All (IsLoadable (λ _. []) (some folders)) infos
index-IsLoadable_example = index-IsLoadable (λ _. []) (some folders) infos two_listed

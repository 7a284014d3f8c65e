-- ===== src/Skills.antt =====
-- skills.py: the catalogue of `FileSystemSkills`. The directory listing and the parsed skill files
-- are what the file system holds at the time of the call: a `Folder` stands for a directory of the
-- root with a skill file, in sorted order, and the result of `_parse` for that file, which raises
-- where the file is unreadable or malformed. A root that is no directory is `none`.
mod Tests
pub mod Catalogue
use tantra.Prelude.{
  String, Bool, Option, none, some, List, [], ◌∷◌, ◌==◌, find, has, if◌then◌else◌, map,
}
use tantra.Prelude.Outcome.{Outcome, Error, ok, raise, or_raise, tantra_error, ◌>>=◌}

pub record SkillInfo : Type 0 where
  pub name : String
  pub description : String

pub record Skill : Type 0 where
  pub name : String
  pub description : String
  pub body : String
  pub files : List String

pub record Folder : Type 0 where
  pub directory : String
  pub parsed : Outcome Skill

-- why a skill file was left out
pub data Reason : Type 0 where
  unreadable : Error → Reason
  duplicate : String → Reason

pub record Scanned : Type 0 where
  pub entries : List (String × Skill)
  pub skipped : List (String × Reason)

-- the body of the loop of `_scan`, and the folders after it; `seen` are the names so far
unfoldable pub scan_folders : List String → List Folder → Scanned
scan_folders seen [] = record { entries = []; skipped = [] }
scan_folders seen (folder ∷ folders) =
    let skip = scan_folders seen folders in
    elim folder.parsed [
      | raise x ↦ record skip { skipped = (folder.directory, unreadable x) ∷ skip.skipped }
      | ok skill ↦
          let rest = scan_folders (skill.name ∷ seen) folders in
          if has seen skill.name
          then record skip { skipped = (folder.directory, duplicate skill.name) ∷ skip.skipped }
          else record rest { entries = (folder.directory, skill) ∷ rest.entries }
    ]

unfoldable pub scan : Option (List Folder) → Outcome Scanned
unfolding scan_folders
scan none = raise tantra_error
scan (some folders) = ok (scan_folders [] folders)

abbrev pub info_of : String × Skill → SkillInfo
info_of (_, skill) = record { name = skill.name; description = skill.description }

unfoldable pub index : Option (List Folder) → Outcome (List SkillInfo)
unfolding scan
index root = do scanned ← scan root; ok (map info_of scanned.entries)

-- `files` is `_files` of a directory
unfoldable pub load : (String → List String) → String → Option (List Folder) → Outcome Skill
unfolding scan
load files name root = do
  scanned ← scan root
  entry ← or_raise (find (λ e. e.1.name == name) scanned.entries) tantra_error
  ok (record (entry.1) { files = files (entry.0) })

-- ===== src/Orchestrator/Backend/Paths.antt =====
-- Which paths the backend agent accepts from the language model, and where it writes them.
pub mod Laws
use talki_llm_admission_sche.Base.{
  ◌==◌, true, false, Option, none, some, List, [], ◌∷◌, ◌++◌, codes, map,
}
use talki_llm_admission_sche.Orchestrator.Text.{Text, starts_with, strip, lstrip_by}
use talki_llm_admission_sche.Orchestrator.Charter.{matches_forbidden}
use talki_llm_admission_sche.Orchestrator.Backend.{FileChange, GeneratedChanges}

-- `s.lstrip("/")`
abbrev pub lstrip_slash : Text → Text
lstrip_slash s = lstrip_by (λ c. c == b'/') s

-- The path that is checked.
abbrev pub checked_path : FileChange → Text
checked_path f = elim f.path [ none ↦ [] | some p ↦ lstrip_slash (strip p) ]

abbrev pub hit_of : Text → Option Text → List Text
hit_of p none = []
hit_of p (some hit) = (p ++ codes " (matches " ++ hit ++ codes ")") ∷ []

abbrev pub bad_path : Text → List Text
bad_path [] = codes "(empty)" ∷ []
bad_path (c ∷ p) = hit_of (c ∷ p) (matches_forbidden (c ∷ p))

unfoldable pub bad_paths : List FileChange → List Text
bad_paths [] = []
bad_paths (f ∷ files) = bad_path (checked_path f) ++ bad_paths files

abbrev pub all_files : GeneratedChanges → List FileChange
all_files changes = changes.files ++ changes.tests

-- `_validate_paths`
unfoldable pub validate_paths : GeneratedChanges → List Text
unfolding bad_paths
validate_paths changes = bad_paths (all_files changes)

-- `wt.path / path`, which is the second path where that is absolute. The dots and doubled slashes that
-- pathlib drops are kept.
abbrev pub joined : Text → Text → Text
joined root path = elim (starts_with (codes "/") path) [
  | true ↦ path
  | false ↦ root ++ codes "/" ++ path
]

-- ===== src/Orchestrator/Labels.antt =====
-- The labels of an issue or a pull request, by their names, and those that the agents set.
use talki_llm_admission_sche.Base.{◌||◌, Bool, false, List, [], ◌∷◌, codes}
use talki_llm_admission_sche.Orchestrator.Text.{Text, same_text}

unfoldable pub has_label : Text → List Text → Bool
unfolding same_text
has_label name [] = false
has_label name (l ∷ labels) = same_text l name || has_label name labels

abbrev pub review_label : Text
review_label = codes "needs-human-review"

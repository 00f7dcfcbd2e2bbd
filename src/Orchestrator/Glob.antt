-- ===== src/Orchestrator/Glob.antt =====
-- `fnmatch.fnmatch` for patterns whose only special character is `*`, which also stands for a slash.
pub mod Laws
use talki_llm_admission_sche.Base.{ℕ, ◌==◌, ◌&&◌, Bool, true, false, List, [], ◌∷◌}
use talki_llm_admission_sche.Orchestrator.Text.{Text, is_empty, any_suffix}

abbrev pub head_is : ℕ → (Text → Bool) → Text → Bool
head_is p f [] = false
head_is p f (c ∷ s) = (c == p) && f s

unfoldable pub glob : Text → Text → Bool
unfolding any_suffix
glob [] s = is_empty s
glob (p ∷ ps) s = elim (p == b'*') [ true ↦ any_suffix (glob ps) s | false ↦ head_is p (glob ps) s ]

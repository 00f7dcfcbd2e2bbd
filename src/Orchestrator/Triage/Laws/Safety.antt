-- ===== src/Orchestrator/Triage/Laws/Safety.antt =====
-- What the triage agent asks of GitHub.
use talki_llm_admission_sche.Base.{ℕ, ◌≡◌, false, some, List, Among}
use talki_llm_admission_sche.Orchestrator.Text.{Text, is_empty, strip}
use talki_llm_admission_sche.Orchestrator.Labels.{has_label}
use talki_llm_admission_sche.Orchestrator.Actions.{
  Action, Comment, list_open, comment, info_missing, set_labels, ask_llm, reserve_tokens,
  commit_tokens, log_event,
}
use talki_llm_admission_sche.Orchestrator.Backend.{Issue}
use talki_llm_admission_sche.Orchestrator.Triage.{
  Verdict, replied, Env, is_triaged, commented_label,
}
use talki_llm_admission_sche.Orchestrator.Triage.Laws.{IsSound}

-- The language model has answered with the verdict.
abbrev pub HasReplied : Env → Verdict → Type 0
HasReplied env v = (k : ℕ) × (tokens : ℕ) × (env.reply k ≡ replied (some v) tokens)

-- The labels may be set: the issue is the one of that number, is not triaged, and the labels are those of
-- a verdict with which the model has answered.
pub record MaySet (env : Env) (n : ℕ) (new : List Text) (i : Issue) : Type 0 where
  pub same : i.number ≡ n
  pub untriaged : is_triaged i.labels ≡ false
  pub verdict : Verdict
  pub answered : HasReplied env verdict
  pub sound : IsSound verdict i.labels new

-- The comment may be posted: it asks the author of an issue that is not triaged for what is missing by a verdict with
-- which the model has answered, and the issue is not labelled as one that was asked before.
pub record MayAsk (env : Env) (n : ℕ) (text : Comment) (i : Issue) : Type 0 where
  pub same : i.number ≡ n
  pub untriaged : is_triaged i.labels ≡ false
  pub verdict : Verdict
  pub answered : HasReplied env verdict
  pub missing : is_empty (strip verdict.missing_info) ≡ false
  pub first : has_label commented_label i.labels ≡ false
  pub text_eq : text ≡ info_missing (strip verdict.missing_info)

-- What is asked of an action: setting labels and commenting are bound, and beside them there are only the listing
-- of the issues, the budget, the model and the audit file.
abbrev pub Limited : Env → List Issue → Action → Type 0
Limited env issues (set_labels n new) = Among (MaySet env n new) issues
Limited env issues (comment n text) = Among (MayAsk env n text) issues
Limited env issues (list_open n) = Unit
Limited env issues ask_llm = Unit
Limited env issues (reserve_tokens n) = Unit
Limited env issues (commit_tokens n) = Unit
Limited env issues (log_event name) = Unit
Limited env issues _ = ⊥

-- ===== src/Orchestrator/Triage.antt =====
-- orchestrator/roles/triage.py: TriageAgent, which asks a language model for the labels of each open
-- issue. The order of the labels in a set, by which Python lists them, is that of the issue. The texts of
-- the prompt and of the comment are left out.
pub mod Laws
use talki_llm_admission_sche.Base.{
  ℕ, ◌==◌, ◌&&◌, ◌||◌, Bool, true, false, not, Option, none, some, List, [], ◌∷◌, ◌++◌, map, codes,
  String, if◌then◌else◌,
}
use talki_llm_admission_sche.Orchestrator.Text.{
  Text, is_empty, same_text, starts_with, strip, lstrip_by, rstrip_by,
}
use talki_llm_admission_sche.Orchestrator.Labels.{has_label}
use talki_llm_admission_sche.Orchestrator.Actions.{
  Failure, M, pure, perform, observe, try_any, ◌>>=◌, ◌>>◌, list_open, comment, info_missing,
  set_labels, ask_llm, reserve_tokens, commit_tokens, log_event,
}
use talki_llm_admission_sche.Orchestrator.Backend.{Issue, Reserved, granted, exceeded, unavailable}

-- The JSON object that the model has written.
pub record Verdict : Type 0 where
  pub area : Text
  pub kind : Text
  pub ready : Bool
  pub missing_info : Text

pub data Reply : Type 0 where
  replied : Option Verdict → ℕ → Reply
  timed_out llm_error : Reply

pub record Env : Type 0 where
  pub failure : ℕ → Option Failure
  pub open_issues : List Issue
  pub reserved : ℕ → Reserved
  pub reply : ℕ → Reply

-- VALID_AREAS
abbrev pub valid_areas : List Text
valid_areas =
    map codes ("area/api" ∷ "area/web" ∷ "area/infra" ∷ "area/docs" ∷ "area/team-ops" ∷ [])

-- VALID_KINDS
abbrev pub valid_kinds : List Text
valid_kinds = map codes ("kind/bug" ∷ "kind/feature" ∷ "kind/chore" ∷ "kind/task" ∷ [])

abbrev pub ready_label : Text
ready_label = codes "ready-for-dev"

abbrev pub info_label : Text
info_label = codes "needs-info"

abbrev pub commented_label : Text
commented_label = codes "needs-info-commented"

unfoldable pub has_prefix : Text → List Text → Bool
unfolding starts_with
has_prefix p [] = false
has_prefix p (l ∷ labels) = starts_with p l || has_prefix p labels

unfoldable pub is_triaged : List Text → Bool
unfolding has_prefix has_label
is_triaged labels =
    has_prefix (codes "area/") labels
    && has_prefix (codes "kind/") labels
    && (has_label ready_label labels || has_label info_label labels)

-- The labels with one more, if it is not there.
abbrev pub with_label : Text → List Text → List Text
with_label name labels = if has_label name labels then labels else labels ++ (name ∷ [])

-- The same, if the name is one of those that are allowed.
abbrev pub with_valid : List Text → Text → List Text → List Text
with_valid allowed name labels = if has_label name allowed then with_label name labels else labels

-- `new_labels`, before it is looked at whether the issue is ready.
abbrev pub with_area_and_kind : Verdict → List Text → List Text
with_area_and_kind v labels = with_valid valid_kinds v.kind (with_valid valid_areas v.area labels)

-- What comes of a verdict: the new labels, and the comment that asks for what is missing.
abbrev pub by_missing : Verdict → List Text → List Text → List Text × Option Text
by_missing v labels new = elim (is_empty (strip v.missing_info)) [
  | true ↦ (new, none)
  | false ↦ elim (has_label commented_label labels) [
    | true ↦ (with_label info_label new, none)
    | false ↦ (with_label info_label new ++ (commented_label ∷ []), some (strip v.missing_info))
  ]
]

abbrev pub by_ready : Verdict → List Text → List Text → List Text × Option Text
by_ready v labels new = elim (v.ready && not (has_label info_label new)) [
  | true ↦ (with_label ready_label new, none)
  | false ↦ by_missing v labels new
]

unfoldable pub new_labels : Verdict → List Text → List Text × Option Text
unfolding has_label strip lstrip_by rstrip_by
new_labels v labels = by_ready v labels (with_area_and_kind v labels)

unfoldable pub all_in : List Text → List Text → Bool
unfolding has_label
all_in [] labels = true
all_in (l ∷ ls) labels = has_label l labels && all_in ls labels

-- `set(new_labels) != labels`
abbrev pub is_changed : List Text → List Text → Bool
is_changed new labels = not (all_in new labels && all_in labels new)

abbrev pub post_comment : Env → ℕ → Option Text → M (Unit {0})
post_comment env n none = pure tt
post_comment env n (some missing) = perform env.failure (comment n (info_missing missing))

abbrev pub put_labels : Env → ℕ → List Text → List Text → M (Unit {0})
put_labels env n new labels = elim (is_changed new labels) [
  | true ↦ (do perform env.failure (set_labels n new); perform env.failure (log_event "labeled"))
  | false ↦ pure tt
]

unfoldable pub by_verdict : Env → Issue → Option Verdict → M (Unit {0})
unfolding new_labels all_in
by_verdict env issue none = perform env.failure (log_event "json-parse-fail")
by_verdict env issue (some v) = do
  post_comment env issue.number (new_labels v issue.labels).1
  put_labels env issue.number (new_labels v issue.labels).0 issue.labels

-- `expected`
abbrev pub expected_tokens : ℕ
expected_tokens = 600

abbrev pub settle : Env → Bool → ℕ → M (Unit {0})
settle env reserved tokens = elim reserved [
  | true ↦ perform env.failure (commit_tokens tokens)
  | false ↦ pure tt
]

abbrev pub by_reply : Env → Issue → Bool → Reply → M (Unit {0})
by_reply env issue reserved (replied content tokens) = do
  settle env reserved tokens
  by_verdict env issue content
by_reply env issue reserved timed_out = settle env reserved expected_tokens
by_reply env issue reserved llm_error = settle env reserved expected_tokens

abbrev pub consult : Env → Issue → Bool → M (Unit {0})
consult env issue reserved = do
  perform env.failure ask_llm
  reply ← observe env.reply
  by_reply env issue reserved reply

abbrev pub by_reserved : Env → Issue → Reserved → M (Unit {0})
by_reserved env issue granted = consult env issue true
by_reserved env issue exceeded = perform env.failure (log_event "budget-exceeded")
by_reserved env issue unavailable = do
  perform env.failure (log_event "budget-unavailable")
  consult env issue false

-- `_triage_one`
unfoldable pub triage_one : Env → Issue → M (Unit {0})
unfolding is_triaged by_verdict
triage_one env issue = elim (is_triaged issue.labels) [
  | true ↦ pure tt
  | false ↦ (do
    perform env.failure (reserve_tokens expected_tokens)
    reserved ← observe env.reserved
    by_reserved env issue reserved)
]

unfoldable pub triage_all : Env → List Issue → M (Unit {0})
unfolding triage_one
triage_all env [] = pure tt
triage_all env (issue ∷ issues) = do
  try_any (triage_one env issue) (perform env.failure (log_event "fail"))
  triage_all env issues

-- `heartbeat`
abbrev pub list_or_nothing : Env → M (List Issue)
list_or_nothing env =
    try_any (do perform env.failure (list_open 0); pure env.open_issues)
      (do perform env.failure (log_event "heartbeat-fail"); pure [])

unfoldable pub heartbeat : Env → M (Unit {0})
unfolding triage_all
heartbeat env = do issues ← list_or_nothing env; triage_all env issues

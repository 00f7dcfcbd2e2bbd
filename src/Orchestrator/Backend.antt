-- ===== src/Orchestrator/Backend.antt =====
-- orchestrator/roles/backend.py: BackendAgent, which takes an issue, has the language model write the
-- change, runs the tests and opens a pull request. Of an issue the model has the number and the labels,
-- of a change the files and the tests. The texts that go to the model and into comments are left out.
pub mod Paths
pub mod Changes
pub mod Trial
pub mod Asking
pub mod Prompting
pub mod Work
pub mod Choice
pub mod Permitted
use talki_llm_admission_sche.Base.{
  ℕ, ltb, ◌&&◌, Bool, true, false, not, Option, none, some, List, [], ◌∷◌, codes, if◌then◌else◌,
}
use talki_llm_admission_sche.Orchestrator.Text.{Text}
use talki_llm_admission_sche.Orchestrator.Labels.{has_label, review_label}
use talki_llm_admission_sche.Orchestrator.Actions.{Failure}

pub record Issue : Type 0 where
  pub number : ℕ
  pub labels : List Text

-- An entry of `files` or `tests`, each of whose keys may be missing.
pub record FileChange : Type 0 where
  pub path : Option Text
  pub content : Option Text

-- GeneratedChanges
pub record GeneratedChanges : Type 0 where
  pub files : List FileChange
  pub tests : List FileChange

-- The JSON object that the language model has written.
pub record Proposal : Type 0 where
  pub is_blocked : Bool
  pub proposed : GeneratedChanges

-- How `call` ends: with the text, of which the JSON may be missing or empty, and the tokens used.
pub data Reply : Type 0 where
  replied : Option Proposal → ℕ → Reply
  timed_out llm_error : Reply

-- How `check_and_reserve` ends.
pub data Reserved : Type 0 where
  granted exceeded unavailable : Reserved

-- Of the directories `utils` and `tests`: whether both are there, the sorted names of the former's
-- `*.py`, and which files the latter has.
pub record Listing : Type 0 where
  pub both_there : Bool
  pub modules : List Text
  pub has_test : Text → Bool

-- What the agent meets: which actions fail, and what it is answered, by the number of the actions before.
pub record Env : Type 0 where
  pub failure : ℕ → Option Failure
  pub open_issues : List Issue
  pub worktree : ℕ → Text
  pub reserved : ℕ → Reserved
  pub reply : ℕ → Reply
  pub succeeds : ℕ → Bool
  pub staged : ℕ → Bool
  pub listing : ℕ → Listing
  pub new_pr : ℕ → ℕ

abbrev pub inprogress_label : Text
inprogress_label = codes "in-progress-by-backend"

abbrev pub done_label : Text
done_label = codes "worked-by-backend"

abbrev pub blocked_label : Text
blocked_label = codes "blocked-by-backend"

abbrev pub is_candidate : Issue → Bool
is_candidate i =
    not (has_label inprogress_label i.labels)
    && not (has_label done_label i.labels)
    && not (has_label blocked_label i.labels)
    && not (has_label review_label i.labels)

unfoldable pub candidates : List Issue → List Issue
unfolding has_label
candidates [] = []
candidates (i ∷ issues) = let rest = candidates issues in if is_candidate i then i ∷ rest else rest

-- The first of a list sorted by number, given the first so far.
unfoldable pub lowest : Issue → List Issue → Issue
lowest best [] = best
lowest best (i ∷ issues) = lowest (if ltb i.number best.number then i else best) issues

abbrev pub first_of : List Issue → Option Issue
first_of [] = none
first_of (i ∷ issues) = some (lowest i issues)

-- The issue that a heartbeat takes.
unfoldable pub next_issue : List Issue → Option Issue
unfolding candidates lowest
next_issue issues = first_of (candidates issues)

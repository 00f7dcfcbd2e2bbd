-- ===== src/Orchestrator/Actions.antt =====
-- The requests that an agent sends to GitHub (orchestrator/github_app.py) and the events that it writes
-- to its audit file (orchestrator/audit.py), in order, each of which may fail. What GitHub makes of them
-- is not modelled.
pub mod Rules
pub mod Results
pub mod Costs
use talki_llm_admission_sche.Base.{ℕ, Bool, Option, none, some, List, [], ◌∷◌, String, length}
use talki_llm_admission_sche.Orchestrator.Text.{Text}
use talki_llm_admission_sche.Orchestrator.Charter.{Reason}

-- The reasons for which the backend agent gives an issue back.
pub data Obstacle : Type 0 where
  no_worktree nothing_generated nothing_to_commit crashed : Obstacle
  forbidden_paths : List Text → Obstacle
  git_failed : String → Obstacle

-- A comment, by what its text says.
pub data Comment : Type 0 where
  rejected : Reason → Comment
  merge_blocked : Text → Comment
  review_required : Reason → Comment
  info_missing : Text → Comment
  agent_blocked : Obstacle → Comment
  worked_in : ℕ → Comment
  tests_red : ℕ → Comment

-- Each request to GitHub names the pull request or the issue that it is about; the others are to the
-- worktree of an issue, to the files, to the budget and to the language model.
pub data Action : Type 0 where
  list_open get_files get_status approve_pr merge_pr close_pr list_comments : ℕ → Action
  comment : ℕ → Comment → Action
  add_labels set_labels : ℕ → List Text → Action
  remove_label : ℕ → Text → Action
  create_pr : ℕ → Action
  update_base ask_llm : Action
  create_worktree remove_worktree git_add git_diff git_commit git_push : ℕ → Action
  make_parent write_file : Text → Action
  run_tests : List Text → Action
  reserve_tokens commit_tokens : ℕ → Action
  log_event : String → Action

-- GitHubAppError with its text, WorktreeError, or another exception.
pub data Failure : Type 0 where
  github_error : Text → Failure
  worktree_error other_error : Failure

pub data Result (A : Type 0) : Type 0 where
  ok : A → Result A
  failed : Failure → Result A

-- A coroutine: the actions so far, the latest first, before and after it.
abbrev pub M : Type 0 → Type 0
M A = List Action → Result A × List Action

abbrev pub pure : {A : Type 0} → A → M A
pure a l = (ok a, l)

abbrev pub raise : {A : Type 0} → Failure → M A
raise e l = (failed e, l)

infixl 5 ◌>>=◌ ◌>>◌
abbrev pub ◌>>=◌ : {A B : Type 0} → M A → (A → M B) → M B
◌>>=◌ m f l = let (r, k) = m l in elim r [ ok a ↦ f a k | failed e ↦ (failed e, k) ]

abbrev pub ◌>>◌ : {A B : Type 0} → M A → M B → M B
m >> k = m >>= λ _. k

abbrev pub answer_of : Option Failure → Result (Unit {0})
answer_of none = ok tt
answer_of (some e) = failed e

-- The action with so many before it fails, or not.
abbrev pub perform : (ℕ → Option Failure) → Action → M (Unit {0})
perform failure a l = (answer_of (failure (length l)), a ∷ l)

-- `except GitHubAppError as e`
abbrev pub catch_github : {A : Type 0} → (Text → M A) → Failure → M A
catch_github handler (github_error text) l = handler text l
catch_github handler e l = (failed e, l)

abbrev pub try_github : {A : Type 0} → M A → (Text → M A) → M A
try_github m handler l =
    let (r, k) = m l in elim r [ ok a ↦ (ok a, k) | failed e ↦ catch_github handler e k ]

-- `except WorktreeError`
abbrev pub catch_worktree : {A : Type 0} → M A → Failure → M A
catch_worktree handler worktree_error l = handler l
catch_worktree handler e l = (failed e, l)

abbrev pub try_worktree : {A : Type 0} → M A → M A → M A
try_worktree m handler l =
    let (r, k) = m l in elim r [ ok a ↦ (ok a, k) | failed e ↦ catch_worktree handler e k ]

-- `except Exception`
abbrev pub try_any : {A : Type 0} → M A → M A → M A
try_any m handler l = let (r, k) = m l in elim r [ ok a ↦ (ok a, k) | failed e ↦ handler k ]

-- `try: m finally: k`
abbrev pub finally : {A : Type 0} → M A → M (Unit {0}) → M A
finally m k l =
    let (r, l2) = m l in let (s, l3) = k l2 in elim s [ ok _ ↦ (r, l3) | failed e ↦ (failed e, l3) ]

-- What there is at the time, by the number of the actions before.
abbrev pub observe : {A : Type 0} → (ℕ → A) → M A
observe f l = (ok (f (length l)), l)

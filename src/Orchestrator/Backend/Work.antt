-- ===== src/Orchestrator/Backend/Work.antt =====
-- How the backend agent works on one issue, and its heartbeat.
pub mod Safety
pub mod Spending
pub mod Cleanup
use talki_llm_admission_sche.Base.{
  ℕ, ltb, ◌&&◌, Bool, true, false, not, Option, none, some, List, [], ◌∷◌, String, if◌then◌else◌,
}
use talki_llm_admission_sche.Orchestrator.Labels.{review_label}
use talki_llm_admission_sche.Orchestrator.Actions.{
  M, pure, perform, observe, ◌>>=◌, ◌>>◌, try_github, try_worktree, try_any, finally, Obstacle,
  no_worktree, nothing_generated, nothing_to_commit, crashed, forbidden_paths, git_failed,
  list_open, list_comments, comment, agent_blocked, worked_in, tests_red, add_labels, remove_label,
  create_pr, update_base, create_worktree, remove_worktree, git_add, git_diff, git_commit, git_push,
  log_event,
}
use talki_llm_admission_sche.Orchestrator.Backend.{
  Issue, GeneratedChanges, Env, inprogress_label, done_label, blocked_label, next_issue,
}
use talki_llm_admission_sche.Orchestrator.Backend.Paths.{validate_paths}
use talki_llm_admission_sche.Orchestrator.Backend.Changes.{is_nil, generate_changes, write_files}
use talki_llm_admission_sche.Orchestrator.Backend.Trial.{TestResult, run_tests_with_retries}

-- `_block`
unfoldable pub block : Env → ℕ → Obstacle → M (Unit {0})
block env n reason = do
  perform env.failure (comment n (agent_blocked reason))
  try_github (perform env.failure (remove_label n inprogress_label)) (λ _. pure tt)
  try_github (perform env.failure (add_labels n (blocked_label ∷ []))) (λ _. pure tt)
  perform env.failure (log_event "blocked")

-- A step of `_commit_and_push`, and what follows if its exit code is 0.
abbrev pub git_step : Env → M (Unit {0}) → String → M (Option Obstacle) → M (Option Obstacle)
git_step env step name k = do
  step
  succeeded ← observe env.succeeds
  elim succeeded [ true ↦ k | false ↦ pure (some (git_failed name)) ]

-- `_commit_and_push`: what went wrong, or nothing.
unfoldable pub commit_and_push : Env → ℕ → M (Option Obstacle)
commit_and_push env n = git_step env (perform env.failure (git_add n)) "git add" (do
  perform env.failure (git_diff n)
  staged ← observe env.staged
  elim staged [
    | false ↦ pure (some nothing_to_commit)
    | true ↦
        git_step env (perform env.failure (git_commit n)) "git commit"
          (git_step env (perform env.failure (git_push n)) "git push" (pure none))
  ])

-- `_open_pr`, whose extra label is that of a review.
unfoldable pub open_pr : Env → ℕ → Bool → M ℕ
open_pr env n green = do
  perform env.failure (create_pr n)
  pr ← observe env.new_pr
  elim green [
    | true ↦ pure pr
    | false ↦ (do
      try_github (perform env.failure (add_labels pr (review_label ∷ []))) (λ _. pure tt)
      pure pr)
  ]

-- `_comment_pr_with_tests`
abbrev pub comment_pr_with_tests : Env → ℕ → TestResult → M (Unit {0})
comment_pr_with_tests env pr result =
    try_github (perform env.failure (comment pr (tests_red result.attempts))) (λ _. pure tt)

-- From the pull request on.
unfoldable pub deliver : Env → ℕ → TestResult → M (Unit {0})
unfolding open_pr
deliver env n result = do
  pr ← open_pr env n result.green
  elim result.green [ true ↦ pure tt | false ↦ comment_pr_with_tests env pr result ]
  perform env.failure (comment n (worked_in pr))
  perform env.failure (remove_label n inprogress_label)
  perform env.failure (add_labels n (done_label ∷ []))
  perform env.failure (log_event "done")

abbrev pub by_obstacle : Env → ℕ → TestResult → Option Obstacle → M (Unit {0})
by_obstacle env n result (some reason) = block env n reason
by_obstacle env n result none = deliver env n result

unfoldable pub apply_changes : Env → ℕ → GeneratedChanges → M (Unit {0})
unfolding write_files run_tests_with_retries commit_and_push deliver block
apply_changes env n changes = do
  write_files env (env.worktree n) changes
  result ← run_tests_with_retries env (env.worktree n) changes
  pushed ← commit_and_push env n
  by_obstacle env n result pushed

abbrev pub by_changes : Env → ℕ → Option GeneratedChanges → M (Unit {0})
by_changes env n none = block env n nothing_generated
by_changes env n (some changes) = elim (is_nil (validate_paths changes)) [
  | false ↦ block env n (forbidden_paths (validate_paths changes))
  | true ↦ apply_changes env n changes
]

-- The block of the second `try` of `_work_one`.
unfoldable pub produce : Env → ℕ → M (Unit {0})
unfolding generate_changes block apply_changes validate_paths
produce env n = do
  try_github (perform env.failure (list_comments n)) (λ _. pure tt)
  changes ← generate_changes env
  by_changes env n changes

unfoldable pub in_worktree : Env → ℕ → M (Unit {0})
unfolding produce block
in_worktree env n =
    finally (try_any (produce env n) (block env n crashed))
      (try_any (perform env.failure (remove_worktree n)) (pure tt))

-- Whether there is a worktree.
unfoldable pub prepare : Env → ℕ → M Bool
unfolding block
prepare env n =
    try_worktree
      (do perform env.failure update_base; perform env.failure (create_worktree n); pure true)
      (do block env n no_worktree; pure false)

-- `_work_one`
unfoldable pub work_one : Env → ℕ → M (Unit {0})
unfolding prepare in_worktree
work_one env n = do
  perform env.failure (log_event "pick")
  perform env.failure (add_labels n (inprogress_label ∷ []))
  ready ← prepare env n
  elim ready [ true ↦ in_worktree env n | false ↦ pure tt ]

abbrev pub work_on : Env → Option Issue → M (Unit {0})
work_on env none = pure tt
work_on env (some issue) = work_one env issue.number

unfoldable pub list_issues : Env → M (List Issue)
list_issues env =
    try_github (do perform env.failure (list_open 0); pure env.open_issues)
      λ _. do perform env.failure (log_event "heartbeat-fail"); pure []

-- `heartbeat`, by whether KOLA_BACKEND_PAUSED is set
unfoldable pub heartbeat : Env → Bool → M (Unit {0})
unfolding list_issues work_one next_issue
heartbeat env paused = elim paused [
  | true ↦ perform env.failure (log_event "paused")
  | false ↦ (do issues ← list_issues env; work_on env (next_issue issues))
]

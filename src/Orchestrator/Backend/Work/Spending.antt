-- ===== src/Orchestrator/Backend/Work/Spending.antt =====
-- What a heartbeat of the backend agent costs at most.
use talki_llm_admission_sche.Base.{
  ℕ, ◌+◌, ◌*◌, ◌≤◌, ◌≡◌, refl, Bool, true, false, Option, none, some, [], ◌∷◌, String, arith,
}
use talki_llm_admission_sche.Orchestrator.Labels.{review_label}
use talki_llm_admission_sche.Orchestrator.Actions.{
  Action, Obstacle, no_worktree, nothing_generated, nothing_to_commit, crashed, forbidden_paths,
  git_failed, M, perform, list_open, list_comments, comment, agent_blocked, worked_in, tests_red,
  add_labels, remove_label, create_pr, update_base, create_worktree, remove_worktree, git_add,
  git_diff, git_commit, git_push, log_event,
}
use talki_llm_admission_sche.Orchestrator.Actions.Costs.{
  cost, total, Costs, observe-Costs, bind-Costs, at_most, free_then, then_free, branch-Costs,
  try_github-Costs, try_worktree-Costs, try_any-Costs, finally-Costs,
}
use talki_llm_admission_sche.Orchestrator.Backend.{
  Issue, GeneratedChanges, Env, inprogress_label, blocked_label, done_label, next_issue,
}
use talki_llm_admission_sche.Orchestrator.Backend.Paths.{validate_paths, all_files}
use talki_llm_admission_sche.Orchestrator.Backend.Changes.{is_nil, write_files}
use talki_llm_admission_sche.Orchestrator.Backend.Trial.{TestResult}
use talki_llm_admission_sche.Orchestrator.Backend.Work.{
  block, git_step, commit_and_push, open_pr, deliver, by_obstacle, apply_changes, by_changes,
  produce, in_worktree, prepare, work_one, work_on, list_issues, heartbeat,
}
use talki_llm_admission_sche.Orchestrator.Backend.Asking.{
  once, free, quiet, try_quiet, write_each-Costs, run_tests_with_retries-Costs,
  generate_changes-Costs, logged_free,
}

module _ (call token : ℕ) (env : Env) where
  block-Costs : (n : ℕ) (reason : Obstacle) → Costs call token 0 (block env n reason)
  unfolding block
  block-Costs n reason =
      free_then call token 0 (free call token env (comment n (agent_blocked reason)) refl) λ _.
        free_then call token 0 (try_quiet call token env (remove_label n inprogress_label) refl)
          λ _.
            free_then call token 0
              (try_quiet call token env (add_labels n (blocked_label ∷ [])) refl)
              λ _. free call token env (log_event "blocked") refl

  step-Costs :
      (a : Action) (name : String) {k : M (Option Obstacle)}
      → cost call token a ≡ 0
      → Costs call token 0 k
      → Costs call token 0 (git_step env (perform env.failure a) name k)
  step-Costs a name h hk = free_then call token 0 (free call token env a h) λ _.
      free_then call token 0 (observe-Costs call token env.succeeds) λ succeeded.
        branch-Costs call token 0 succeeded hk (quiet call token env (some (git_failed name)))

  commit_and_push-Costs : (n : ℕ) → Costs call token 0 (commit_and_push env n)
  unfolding commit_and_push
  commit_and_push-Costs n = step-Costs (git_add n) "git add" refl (
      free_then call token 0 (free call token env (git_diff n) refl) λ _.
        free_then call token 0 (observe-Costs call token env.staged) λ staged.
          branch-Costs call token 0 staged
            (step-Costs (git_commit n) "git commit" refl
              (step-Costs (git_push n) "git push" refl (quiet call token env none)))
            (quiet call token env (some nothing_to_commit)))

  open_pr-Costs : (n : ℕ) (green : Bool) → Costs call token 0 (open_pr env n green)
  unfolding open_pr
  open_pr-Costs n green = free_then call token 0 (free call token env (create_pr n) refl) λ _.
      free_then call token 0 (observe-Costs call token env.new_pr) λ pr.
        branch-Costs call token 0 green (quiet call token env pr) (
          free_then call token 0 (try_quiet call token env (add_labels pr (review_label ∷ [])) refl)
            (λ _. quiet call token env pr))

  deliver-Costs : (n : ℕ) (result : TestResult) → Costs call token 0 (deliver env n result)
  unfolding deliver
  deliver-Costs n result = free_then call token 0 (open_pr-Costs n result.green) λ pr.
      free_then call token 0
        (branch-Costs call token 0 result.green (quiet call token env tt)
          (try_quiet call token env (comment pr (tests_red result.attempts)) refl))
        λ _. free_then call token 0 (free call token env (comment n (worked_in pr)) refl) λ _.
          free_then call token 0 (free call token env (remove_label n inprogress_label) refl) λ _.
            free_then call token 0 (free call token env (add_labels n (done_label ∷ [])) refl)
              λ _. free call token env (log_event "done") refl

  by_obstacle-Costs :
      (n : ℕ) (result : TestResult) (o : Option Obstacle)
      → Costs call token 0 (by_obstacle env n result o)
  by_obstacle-Costs n result (some reason) = block-Costs n reason
  by_obstacle-Costs n result none = deliver-Costs n result

  by_changes-Costs :
      (n : ℕ) (o : Option GeneratedChanges)
      → Costs call token (2 * once call token env) (by_changes env n o)
  unfolding apply_changes write_files
  by_changes-Costs n none =
      at_most call token 0 (2 * once call token env) (omega arith) (block-Costs n nothing_generated)
  by_changes-Costs n (some changes) =
      branch-Costs call token (2 * once call token env) (is_nil (validate_paths changes))
        (free_then call token (2 * once call token env)
          (write_each-Costs call token env (env.worktree n) (all_files changes))
          λ _.
            then_free call token (2 * once call token env)
              (run_tests_with_retries-Costs call token env (env.worktree n) changes)
              λ result.
                free_then call token 0 (commit_and_push-Costs n) (by_obstacle-Costs n result))
        (at_most call token 0 (2 * once call token env) (omega arith)
          (block-Costs n (forbidden_paths (validate_paths changes))))

  produce-Costs : (n : ℕ) → Costs call token (3 * once call token env) (produce env n)
  unfolding produce
  produce-Costs n =
      at_most call token (once call token env + 2 * once call token env) (3 * once call token env)
        (omega arith)
        (free_then call token (once call token env + 2 * once call token env)
          (try_quiet call token env (list_comments n) refl)
          λ _.
            bind-Costs call token (once call token env) (2 * once call token env)
              (generate_changes-Costs call token env) (by_changes-Costs n))

  work_one-Costs : (n : ℕ) → Costs call token (3 * once call token env) (work_one env n)
  unfolding work_one prepare in_worktree
  work_one-Costs n =
      free_then call token (3 * once call token env) (free call token env (log_event "pick") refl)
        λ _.
          free_then call token (3 * once call token env)
            (free call token env (add_labels n (inprogress_label ∷ [])) refl)
            λ _.
              free_then call token (3 * once call token env)
                (try_worktree-Costs call token 0
                  (free_then call token 0 (free call token env update_base refl) λ _.
                    free_then call token 0 (free call token env (create_worktree n) refl)
                      (λ _. quiet call token env true))
                  (free_then call token 0 (block-Costs n no_worktree)
                    (λ _. quiet call token env false)))
                λ ready.
                  branch-Costs call token (3 * once call token env) ready
                    (finally-Costs call token (3 * once call token env)
                      (try_any-Costs call token (3 * once call token env) (produce-Costs n)
                        (block-Costs n crashed))
                      (try_any-Costs call token 0 (free call token env (remove_worktree n) refl)
                        (quiet call token env tt)))
                    (at_most call token 0 (3 * once call token env) (omega arith)
                      (quiet call token env tt))

  work_on-Costs : (o : Option Issue) → Costs call token (3 * once call token env) (work_on env o)
  work_on-Costs none =
      at_most call token 0 (3 * once call token env) (omega arith) (quiet call token env tt)
  work_on-Costs (some i) = work_one-Costs i.number

  heartbeat-Costs :
      (paused : Bool) → Costs call token (3 * once call token env) (heartbeat env paused)
  unfolding heartbeat list_issues
  heartbeat-Costs paused =
      branch-Costs call token (3 * once call token env) paused
        (at_most call token 0 (3 * once call token env) (omega arith)
          (free call token env (log_event "paused") refl))
        (free_then call token (3 * once call token env)
          (try_github-Costs call token 0
            (free_then call token 0 (free call token env (list_open 0) refl)
              (λ _. quiet call token env env.open_issues))
            (λ t. logged_free call token env "heartbeat-fail" []))
          λ issues. work_on-Costs (next_issue issues))

-- Whatever fails, whatever the language model writes and however the tests end, one heartbeat of the backend agent asks
-- the language model at most three times, and reserves at most 24000 tokens for it.
pub heartbeat_spends :
    (env : Env) (paused : Bool)
    → let actions = (heartbeat env paused []).1 in
      (total 1 0 actions ≤ 3) × (total 0 1 actions ≤ 24000)
heartbeat_spends env paused = (
  omega (arith, (heartbeat-Costs 1 0 env paused).run []),
  omega (arith, (heartbeat-Costs 0 1 env paused).run []),
)

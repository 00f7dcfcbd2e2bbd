-- ===== src/Orchestrator/Backend/Work/Safety.antt =====
-- What the backend agent writes, pushes and asks of GitHub.
use talki_llm_admission_sche.Base.{
  ℕ, zero, suc, String, ◌≡◌, refl, inl, inr, length, Bool, true, false, Option, none, some, List,
  [], ◌∷◌, All,
}
use talki_llm_admission_sche.Orchestrator.Text.{Text}
use talki_llm_admission_sche.Orchestrator.Labels.{review_label}
use talki_llm_admission_sche.Orchestrator.Actions.{
  Action, Obstacle, no_worktree, crashed, nothing_generated, nothing_to_commit, forbidden_paths,
  git_failed, M, pure, perform, observe, try_github, ◌>>=◌, ◌>>◌, list_open, list_comments, comment,
  worked_in, tests_red, add_labels, remove_label, create_pr, update_base, create_worktree,
  remove_worktree, git_add, git_diff, git_commit, git_push, log_event,
}
use talki_llm_admission_sche.Orchestrator.Actions.Rules.{
  Only, only, pure-Only, bind-Only, then-Only, perform-Only, try_any-Only, try_github-Only,
  try_worktree-Only, finally-Only, observe-Only, branch-Only, split-Only, option-Only,
}
use talki_llm_admission_sche.Orchestrator.Actions.Results.{
  Gives, pure-Gives, then-Gives, try_github-Gives, bind-Gives,
}
use talki_llm_admission_sche.Orchestrator.Backend.{
  FileChange, GeneratedChanges, Issue, Env, candidates, inprogress_label, done_label, next_issue,
}
use talki_llm_admission_sche.Orchestrator.Backend.Paths.{validate_paths}
use talki_llm_admission_sche.Orchestrator.Backend.Changes.{
  is_nil, finish_changes, generate_changes, finish_fix, generate_fix,
}
use talki_llm_admission_sche.Orchestrator.Backend.Trial.{
  TestResult, targets, pytest, full_utils_tests, try_tests, red, green_after, retries,
  max_test_retries, run_tests_with_retries,
}
use talki_llm_admission_sche.Orchestrator.Backend.Permitted.{
  Permitted, IsNewPr, block-Only, ask-Only, finish_changes-Only, finish_fix-Only,
  checked_write-Only,
}
use talki_llm_admission_sche.Orchestrator.Backend.Choice.{IsPicked, next_issue-IsPicked}
use talki_llm_admission_sche.Orchestrator.Backend.Work.{
  git_step, commit_and_push, open_pr, deliver, by_obstacle, apply_changes, by_changes, produce,
  in_worktree, prepare, work_one, work_on, list_issues, heartbeat,
}

module _ (env : Env) (P : ℕ → Type 0) where
  pytest-Only : (files : List Text) → Only (Permitted env P) (pytest env files)
  unfolding pytest
  pytest-Only [] = search only
  pytest-Only (f ∷ files) = search only

  try_tests-Only : (tests : List FileChange) → Only (Permitted env P) (try_tests env tests)
  unfolding try_tests
  try_tests-Only tests = bind-Only (pytest-Only (targets tests)) λ passed.
      then-Only (perform-Only env.failure (log_event "backend-test-retry") tt) (
        branch-Only passed
          (bind-Only (observe-Only env.listing) λ listing.
            bind-Only (pytest-Only (full_utils_tests listing)) λ full.
              then-Only (perform-Only env.failure (log_event "backend-test-retry") tt)
                (pure-Only full))
          (pure-Only false))

  commit_and_push-Only : (n : ℕ) → P n → Only (Permitted env P) (commit_and_push env n)
  unfolding commit_and_push
  commit_and_push-Only n taken = step-Only (git_add n) "git add" taken (
      then-Only (perform-Only env.failure (git_diff n) taken) (
        bind-Only (observe-Only env.staged) λ staged.
          branch-Only staged
            (step-Only (git_commit n) "git commit" taken
              (step-Only (git_push n) "git push" taken (pure-Only none)))
            (pure-Only (some nothing_to_commit))))
    where
      step-Only :
          (a : Action) (name : String)
          → Permitted env P a
          → {k : M (Option Obstacle)} → Only (Permitted env P) k
          → Only (Permitted env P) (git_step env (perform env.failure a) name k)
      step-Only a name may hk = then-Only (perform-Only env.failure a may) (
          bind-Only (observe-Only env.succeeds)
            λ succeeded. branch-Only succeeded hk (pure-Only (some (git_failed name))))

  log_red-Only :
      (event : String) (t : TestResult)
      → Only (Permitted env P) (perform env.failure (log_event event) >> pure t)
  log_red-Only event t = search only

  retries-Only :
      (n : ℕ)
      → P n
      → (left attempts : ℕ) (current : GeneratedChanges)
      → Only (Permitted env P) (retries env (env.worktree n) left attempts current)
  unfolding retries generate_fix
  retries-Only n taken zero attempts current = pure-Only (red attempts)
  retries-Only n taken (suc left) attempts current =
      bind-Only (ask-Only env P (finish_fix env current) (finish_fix-Only env P current)) λ fix.
        option-Only fix (log_red-Only "backend-test-retry" (red (suc attempts))) λ changes.
          split-Only (is_nil (validate_paths changes))
            (λ h. then-Only (checked_write-Only env P n taken changes h) (
              bind-Only (try_tests-Only changes.tests) λ passed.
                branch-Only passed (pure-Only (green_after (suc attempts)))
                  (retries-Only n taken left (suc attempts) changes)))
            (λ h. log_red-Only "backend-test-retry" (red (suc attempts)))

  run_tests_with_retries-Only :
      (n : ℕ)
      → P n
      → (changes : GeneratedChanges)
      → Only (Permitted env P) (run_tests_with_retries env (env.worktree n) changes)
  unfolding run_tests_with_retries
  run_tests_with_retries-Only n taken changes = bind-Only (try_tests-Only changes.tests) λ passed.
      branch-Only passed (pure-Only (green_after 1))
        (retries-Only n taken max_test_retries 1 changes)

  label_pr-Gives :
      (pr : ℕ) (green : Bool)
      → IsNewPr env pr
      → Gives (Permitted env P) (IsNewPr env) (elim green [
        | true ↦ pure pr
        | false ↦ (do
          try_github (perform env.failure (add_labels pr (review_label ∷ []))) (λ _. pure tt)
          pure pr)
      ])
  label_pr-Gives pr true new = pure-Gives pr new
  label_pr-Gives pr false new =
      then-Gives
        (try_github-Only (perform-Only env.failure (add_labels pr (review_label ∷ [])) (inr new))
          (λ _. pure-Only tt))
        (pure-Gives pr new)

  read_pr-Gives :
      (green : Bool)
      → Gives (Permitted env P) (IsNewPr env) (
          observe env.new_pr >>= λ pr. elim green [
            | true ↦ pure pr
            | false ↦ (do
              try_github (perform env.failure (add_labels pr (review_label ∷ []))) (λ _. pure tt)
              pure pr)
          ])
  read_pr-Gives green = record {
    run = λ l h. (label_pr-Gives (env.new_pr (length l)) green (length l, refl)).run l h;
  }

  open_pr-Gives :
      (n : ℕ) → P n → (green : Bool) → Gives (Permitted env P) (IsNewPr env) (open_pr env n green)
  unfolding open_pr
  open_pr-Gives n taken green =
      then-Gives (perform-Only env.failure (create_pr n) taken) (read_pr-Gives green)

  deliver-Only :
      (n : ℕ) → P n → (result : TestResult) → Only (Permitted env P) (deliver env n result)
  unfolding deliver
  deliver-Only n taken result = bind-Gives (open_pr-Gives n taken result.green) λ pr new.
      then-Only
        (branch-Only result.green (pure-Only tt) (
          try_github-Only
            (perform-Only env.failure (comment pr (tests_red result.attempts)) (inr new))
            (λ _. pure-Only tt)))
        (then-Only (perform-Only env.failure (comment n (worked_in pr)) (inl taken)) (
          then-Only (perform-Only env.failure (remove_label n inprogress_label) taken) (
            then-Only (perform-Only env.failure (add_labels n (done_label ∷ [])) (inl taken))
              (perform-Only env.failure (log_event "done") tt))))

  by_obstacle-Only :
      (n : ℕ)
      → P n
      → (result : TestResult) (o : Option Obstacle)
      → Only (Permitted env P) (by_obstacle env n result o)
  by_obstacle-Only n taken result (some reason) = block-Only env P n taken reason
  by_obstacle-Only n taken result none = deliver-Only n taken result

  by_changes-Only :
      (n : ℕ) → P n → (o : Option GeneratedChanges) → Only (Permitted env P) (by_changes env n o)
  by_changes-Only n taken none = block-Only env P n taken nothing_generated
  by_changes-Only n taken (some changes) =
      split-Only (is_nil (validate_paths changes))
        (λ h.
          unfold apply_changes in
          then-Only (checked_write-Only env P n taken changes h) (
            bind-Only (run_tests_with_retries-Only n taken changes)
              λ result. bind-Only (commit_and_push-Only n taken) (by_obstacle-Only n taken result)))
        (λ h. block-Only env P n taken (forbidden_paths (validate_paths changes)))

  work_one-Only : (n : ℕ) → P n → Only (Permitted env P) (work_one env n)
  unfolding work_one prepare in_worktree produce generate_changes
  work_one-Only n taken = then-Only (perform-Only env.failure (log_event "pick") tt) (
      then-Only (perform-Only env.failure (add_labels n (inprogress_label ∷ [])) (inl taken)) (
        bind-Only
          (try_worktree-Only
            (then-Only (perform-Only env.failure update_base tt)
              (then-Only (perform-Only env.failure (create_worktree n) taken) (pure-Only true)))
            (then-Only (block-Only env P n taken no_worktree) (pure-Only false)))
          (λ ready.
            branch-Only ready
              (finally-Only
                (try_any-Only
                  (then-Only
                    (try_github-Only (perform-Only env.failure (list_comments n) taken)
                      (λ _. pure-Only tt))
                    (bind-Only (ask-Only env P (finish_changes env) (finish_changes-Only env P))
                      (by_changes-Only n taken)))
                  (block-Only env P n taken crashed))
                (try_any-Only (perform-Only env.failure (remove_worktree n) taken) (pure-Only tt)))
              (pure-Only tt))))

  work_on-Only :
      (o : Option Issue)
      → ((i : Issue) → o ≡ some i → P i.number)
      → Only (Permitted env P) (work_on env o)
  work_on-Only none taken = pure-Only tt
  work_on-Only (some i) taken = work_one-Only i.number (taken i refl)

-- Whatever fails, and whatever the language model writes, one heartbeat of the backend agent makes a
-- worktree, commits, pushes, opens a pull request and removes a label only for an open issue that has none of the labels
-- in-progress, worked, blocked and needs-human-review, and the lowest number of such; it comments on and
-- adds labels to that issue and the pull request that it has opened, and no other; it writes only to the places of paths
-- that the check of the paths accepts, joined to the worktree of that issue (an absolute path, which the check
-- takes without its slashes, stays as it is); and it approves, merges and closes no pull request and
-- replaces no labels.
pub backend_heartbeat_safe :
    (env : Env) (paused : Bool)
    → All (Permitted env (IsPicked env.open_issues)) (heartbeat env paused []).1
unfolding heartbeat list_issues next_issue candidates
backend_heartbeat_safe env paused =
    let P = IsPicked env.open_issues in
    (branch-Only paused (perform-Only env.failure (log_event "paused") tt) (
        bind-Gives {R = λ issues. Only (Permitted env P) (work_on env (next_issue issues))}
          (try_github-Gives
            (then-Gives (perform-Only env.failure (list_open 0) tt) (
              pure-Gives env.open_issues (
                work_on-Only env P (next_issue env.open_issues)
                  (next_issue-IsPicked env.open_issues))))
            (λ _.
              then-Gives (perform-Only env.failure (log_event "heartbeat-fail") tt)
                (pure-Gives [] (pure-Only tt))))
          (λ issues h. h))).run
      [] tt

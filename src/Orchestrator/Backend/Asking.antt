-- ===== src/Orchestrator/Backend/Asking.antt =====
-- What the backend agent's calls of the language model cost at most, with the writing and the tests between them.
use talki_llm_admission_sche.Base.{
  ℕ, zero, suc, ◌+◌, ◌*◌, ◌≡◌, refl, Bool, true, false, Option, none, some, List, [], ◌∷◌, String,
  arith,
}
use talki_llm_admission_sche.Orchestrator.Text.{Text}
use talki_llm_admission_sche.Orchestrator.Actions.{
  Action, M, perform, log_event, ask_llm, reserve_tokens, commit_tokens, make_parent, write_file,
  run_tests, other_error, pure, try_github, ◌>>◌,
}
use talki_llm_admission_sche.Orchestrator.Actions.Costs.{
  cost, Costs, pure-Costs, raise-Costs, observe-Costs, perform-Costs, bind-Costs, at_most,
  free_then, then_free, branch-Costs, option-Costs, try_github-Costs,
}
use talki_llm_admission_sche.Orchestrator.Backend.{
  FileChange, GeneratedChanges, Proposal, Reply, replied, timed_out, llm_error, Reserved, granted,
  exceeded, unavailable, Env,
}
use talki_llm_admission_sche.Orchestrator.Backend.Paths.{validate_paths, all_files}
use talki_llm_admission_sche.Orchestrator.Backend.Changes.{
  is_nil, give_up, expected_tokens, settle, by_reply, consult, by_reserved, ask, finish_changes,
  generate_changes, finish_fix, generate_fix, write_content, write_one, write_each,
}
use talki_llm_admission_sche.Orchestrator.Backend.Trial.{
  targets, pytest, full_utils_tests, try_tests, red, green_after, retries, max_test_retries,
  run_tests_with_retries,
}

module _ (call token : ℕ) (env : Env) where
  -- One call with its reservation.
  abbrev pub once : ℕ
  once = token * expected_tokens + call

  pub free : (a : Action) → cost call token a ≡ 0 → Costs call token 0 (perform env.failure a)
  free a h = perform-Costs call token env.failure a 0 (omega (arith, h))

  pub quiet : {A : Type 0} (a : A) → Costs call token 0 (pure a)
  quiet a = pure-Costs call token 0 a

  pub try_quiet :
      (a : Action)
      → cost call token a ≡ 0
      → Costs call token 0 (try_github (perform env.failure a) (λ _. pure tt))
  try_quiet a h = try_github-Costs call token 0 (free a h) (λ t. quiet tt)

  give_up-Costs : (event : String) → Costs call token 0 (give_up env event)
  give_up-Costs event = free_then call token 0 (free (log_event event) refl) (λ _. quiet none)

  settle-Costs : (reserved : Bool) (tokens : ℕ) → Costs call token 0 (settle env reserved tokens)
  settle-Costs reserved tokens =
      branch-Costs call token 0 reserved (free (commit_tokens tokens) refl) (quiet tt)

  module _ (finish : Option Proposal → M (Option GeneratedChanges))
      (finished : (p : Option Proposal) → Costs call token 0 (finish p)) where
    by_reply-Costs :
        (reserved : Bool) (r : Reply) → Costs call token 0 (by_reply env reserved finish r)
    by_reply-Costs reserved (replied content tokens) =
        free_then call token 0 (settle-Costs reserved tokens) (λ _. finished content)
    by_reply-Costs reserved timed_out =
        free_then call token 0 (settle-Costs reserved expected_tokens)
          (λ _. give_up-Costs "llm-timeout")
    by_reply-Costs reserved llm_error =
        free_then call token 0 (settle-Costs reserved expected_tokens)
          (λ _. give_up-Costs "llm-error")

    consult-Costs : (reserved : Bool) → Costs call token call (consult env finish reserved)
    consult-Costs reserved =
        then_free call token call (perform-Costs call token env.failure ask_llm call (omega arith))
          λ _. free_then call token 0 (observe-Costs call token env.reply) (by_reply-Costs reserved)

    by_reserved-Costs : (r : Reserved) → Costs call token call (by_reserved env finish r)
    by_reserved-Costs granted = consult-Costs true
    by_reserved-Costs exceeded =
        at_most call token 0 call (omega arith) (give_up-Costs "budget-exceeded")
    by_reserved-Costs unavailable =
        free_then call token call (free (log_event "budget-unavailable") refl)
          (λ _. consult-Costs false)

    ask-Costs : Costs call token once (ask env finish)
    unfolding ask
    ask-Costs =
        bind-Costs call token (token * expected_tokens) call
          (perform-Costs call token env.failure (reserve_tokens expected_tokens)
            (token * expected_tokens) (omega arith))
          λ _. free_then call token call (observe-Costs call token env.reserved) by_reserved-Costs

  pub generate_changes-Costs : Costs call token once (generate_changes env)
  unfolding generate_changes
  generate_changes-Costs = ask-Costs (finish_changes env) finished
    where
      finished : (p : Option Proposal) → Costs call token 0 (finish_changes env p)
      finished none = give_up-Costs "json-parse-fail"
      finished (some p) =
          branch-Costs call token 0 p.is_blocked (give_up-Costs "llm-blocked") (quiet _)

  generate_fix-Costs :
      (previous : GeneratedChanges) → Costs call token once (generate_fix env previous)
  unfolding generate_fix
  generate_fix-Costs previous = ask-Costs (finish_fix env previous) finished
    where
      finished : (p : Option Proposal) → Costs call token 0 (finish_fix env previous p)
      finished none = give_up-Costs "json-parse-fail"
      finished (some p) = quiet _

  write_content-Costs :
      (target : Text) (c : Option Text) → Costs call token 0 (write_content env target c)
  write_content-Costs target none = raise-Costs call token 0 other_error
  write_content-Costs target (some content) = free (write_file target) refl

  write_one-Costs :
      (root : Text) (path content : Option Text)
      → Costs call token 0 (write_one env root path content)
  write_one-Costs root none content = raise-Costs call token 0 other_error
  write_one-Costs root (some path) content =
      free_then call token 0 (free (make_parent _) refl) (λ _. write_content-Costs _ content)

  pub write_each-Costs :
      (root : Text) (files : List FileChange) → Costs call token 0 (write_each env root files)
  unfolding write_each
  write_each-Costs root [] = quiet tt
  write_each-Costs root (f ∷ files) =
      free_then call token 0 (write_one-Costs root f.path f.content)
        (λ _. write_each-Costs root files)

  pytest-Costs : (files : List Text) → Costs call token 0 (pytest env files)
  unfolding pytest
  pytest-Costs [] = quiet true
  pytest-Costs (f ∷ files) =
      free_then call token 0 (free (run_tests (f ∷ files)) refl)
        (λ _. observe-Costs call token env.succeeds)

  pub logged_free :
      {A : Type 0} (event : String) (a : A)
      → Costs call token 0 (perform env.failure (log_event event) >> pure a)
  logged_free event a = free_then call token 0 (free (log_event event) refl) (λ _. quiet a)

  try_tests-Costs : (tests : List FileChange) → Costs call token 0 (try_tests env tests)
  unfolding try_tests
  try_tests-Costs tests = free_then call token 0 (pytest-Costs (targets tests)) λ passed.
      free_then call token 0 (free (log_event "backend-test-retry") refl) λ _.
        branch-Costs call token 0 passed
          (free_then call token 0 (observe-Costs call token env.listing) λ listing.
            free_then call token 0 (pytest-Costs (full_utils_tests listing))
              λ full. logged_free "backend-test-retry" full)
          (quiet false)

  -- Each retry asks once.
  retries-Costs :
      (root : Text) (left attempts : ℕ) (current : GeneratedChanges)
      → Costs call token (left * once) (retries env root left attempts current)
  unfolding retries
  retries-Costs root zero attempts current = pure-Costs call token _ (red attempts)
  retries-Costs root (suc left) attempts current =
      at_most call token (once + left * once) (suc left * once) (grind arith) (
        bind-Costs call token once (left * once) (generate_fix-Costs current) λ fix.
          option-Costs call token (left * once) fix
            (later left (logged_free "backend-test-retry" (red (suc attempts))))
            λ changes.
              branch-Costs call token (left * once) (is_nil (validate_paths changes))
                (free_then call token (left * once) (write_each-Costs root (all_files changes)) λ _.
                  free_then call token (left * once) (try_tests-Costs changes.tests) λ passed.
                    branch-Costs call token (left * once) passed
                      (later left (quiet (green_after (suc attempts))))
                      (retries-Costs root left (suc attempts) changes))
                (later left (logged_free "backend-test-retry" (red (suc attempts)))))
    where
      later :
          {A : Type 0} {m : M A} (left : ℕ)
          → Costs call token 0 m
          → Costs call token (left * once) m
      later left h = at_most call token 0 (left * once) (omega arith) h

  pub run_tests_with_retries-Costs :
      (root : Text) (changes : GeneratedChanges)
      → Costs call token (2 * once) (run_tests_with_retries env root changes)
  unfolding run_tests_with_retries
  run_tests_with_retries-Costs root changes =
      free_then call token (2 * once) (try_tests-Costs changes.tests) λ passed.
        branch-Costs call token (2 * once) passed
          (at_most call token 0 (2 * once) (omega arith) (quiet (green_after 1)))
          (retries-Costs root max_test_retries 1 changes)

-- ===== src/Orchestrator/Backend/Trial.antt =====
-- How the backend agent tests a change, and has it corrected while the tests fail.
use talki_llm_admission_sche.Base.{
  ℕ, suc, zero, ◌&&◌, Bool, true, false, not, Option, none, some, List, [], ◌∷◌, ◌++◌, codes,
  if◌then◌else◌,
}
use talki_llm_admission_sche.Orchestrator.Text.{Text, same_text}
use talki_llm_admission_sche.Orchestrator.Actions.{
  M, pure, perform, observe, ◌>>=◌, ◌>>◌, run_tests, log_event,
}
use talki_llm_admission_sche.Orchestrator.Backend.{FileChange, GeneratedChanges, Listing, Env}
use talki_llm_admission_sche.Orchestrator.Backend.Paths.{validate_paths}
use talki_llm_admission_sche.Orchestrator.Backend.Changes.{is_nil, generate_fix, write_files}

pub record TestResult : Type 0 where
  pub green : Bool
  pub attempts : ℕ

-- `[t["path"] for t in tests if t.get("path")]`
abbrev pub or_skip : Option Text → List Text → List Text
or_skip none l = l
or_skip (some []) l = l
or_skip (some (c ∷ p)) l = (c ∷ p) ∷ l

unfoldable pub targets : List FileChange → List Text
targets [] = []
targets (t ∷ tests) = or_skip t.path (targets tests)

-- `_pytest`: whether the exit code is 0, which it is when there is nothing to run.
unfoldable pub pytest : Env → List Text → M Bool
pytest env [] = pure true
pytest env (f ∷ files) = do perform env.failure (run_tests (f ∷ files)); observe env.succeeds

abbrev pub test_of : Text → Text
test_of name = codes "apps/api/tests/test_" ++ name

abbrev pub is_tested : (Text → Bool) → Text → Bool
is_tested has_test name = not (same_text name (codes "__init__.py")) && has_test (test_of name)

unfoldable pub tests_of : (Text → Bool) → List Text → List Text
unfolding same_text
tests_of has_test [] = []
tests_of has_test (name ∷ modules) =
    let rest = tests_of has_test modules in
    if is_tested has_test name then test_of name ∷ rest else rest

-- `_full_utils_tests`, with nothing excluded
unfoldable pub full_utils_tests : Listing → List Text
unfolding tests_of
full_utils_tests d = if d.both_there then tests_of d.has_test d.modules else []

-- The tests of the change, and if they pass those of all of `utils`.
unfoldable pub try_tests : Env → List FileChange → M Bool
unfolding targets pytest full_utils_tests
try_tests env tests = do
  passed ← pytest env (targets tests)
  perform env.failure (log_event "backend-test-retry")
  elim passed [
    | false ↦ pure false
    | true ↦ (do
      listing ← observe env.listing
      full ← pytest env (full_utils_tests listing)
      perform env.failure (log_event "backend-test-retry")
      pure full)
  ]

abbrev pub red : ℕ → TestResult
red attempts = record { green = false; attempts = attempts }

abbrev pub green_after : ℕ → TestResult
green_after attempts = record { green = true; attempts = attempts }

-- The loop of retries, with those left and the attempts so far.
unfoldable pub retries : Env → Text → ℕ → ℕ → GeneratedChanges → M TestResult
unfolding generate_fix validate_paths write_files try_tests
retries env root zero attempts current = pure (red attempts)
retries env root (suc left) attempts current = do
  fix ← generate_fix env current
  elim fix [
    | none ↦ (do perform env.failure (log_event "backend-test-retry"); pure (red (suc attempts)))
    | some changes ↦ elim (is_nil (validate_paths changes)) [
      | false ↦ (do perform env.failure (log_event "backend-test-retry"); pure (red (suc attempts)))
      | true ↦ (do
        write_files env root changes
        passed ← try_tests env changes.tests
        elim passed [
          | true ↦ pure (green_after (suc attempts))
          | false ↦ retries env root left (suc attempts) changes
        ])
    ]
  ]

-- MAX_TEST_RETRIES
abbrev pub max_test_retries : ℕ
max_test_retries = 2

-- `_run_tests_with_retries`
unfoldable pub run_tests_with_retries : Env → Text → GeneratedChanges → M TestResult
unfolding try_tests retries
run_tests_with_retries env root changes = do
  passed ← try_tests env changes.tests
  elim passed [ true ↦ pure (green_after 1) | false ↦ retries env root max_test_retries 1 changes ]

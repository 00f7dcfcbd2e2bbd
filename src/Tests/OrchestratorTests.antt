-- ===== src/Tests/OrchestratorTests.antt =====
-- The rules of the charter, the budget, the language model, the configuration, the forwarder and the
-- identifiers at concrete inputs.
use talki_llm_admission_sche.Base.{
  ℕ, ◌+◌, ◌<◌, ◌≡◌, ◌≢◌, ◌↔◌, refl, true, false, none, some, List, [], ◌∷◌, codes, arith, ◌/◌, ◌%◌,
  ◌^◌,
}
use talki_llm_admission_sche.Base.Int.{pos, ◌+ℤ◌, ◌≤ℤ◌}
use talki_llm_admission_sche.Orchestrator.Text.{Text, base_name, splitlines, strip}
use talki_llm_admission_sche.Orchestrator.Glob.{glob}
use talki_llm_admission_sche.Orchestrator.Charter.{
  PullRequest, ChangedFile, CheckRun, matches_forbidden, is_agent_pr, check_charter_3,
}
use talki_llm_admission_sche.Orchestrator.Charter.Rejection.{Alphabet, is_lower, check_charter_4}
use talki_llm_admission_sche.Orchestrator.Charter.Rejected.{IsTolerable, check_charter_4_iff}
use talki_llm_admission_sche.Orchestrator.Budget.{done, refused, Store, check_and_reserve, commit}
use talki_llm_admission_sche.Orchestrator.Budget.Calls.{
  Calls, DoneCalls, begins, reserves, commits, calls-IsWithin, DoneCalls-total,
}
use talki_llm_admission_sche.Orchestrator.Budget.Refinement.{Leads, check_and_reserve_refines}
use talki_llm_admission_sche.Orchestrator.Roles.{Role, variable, load_dotenv}
use talki_llm_admission_sche.Orchestrator.Roles.Laws.{load_dotenv_keeps}
use talki_llm_admission_sche.Forwarder.{Response, extract_backend_target, entry, safe_payload}
use talki_llm_admission_sche.Forwarder.Laws.{safe_payload_lem}
use talki_llm_admission_sche.Uuid.{uuid_value, uuid7, rand_a, rand_b}
use talki_llm_admission_sche.Uuid.Order.{uuid_value_fields, IsBefore, uuid7_sorts}

glob_crosses_slash : glob (codes ".github/*") (codes ".github/workflows/ci.yml") ≡ true
unfolding glob
glob_crosses_slash = refl

-- A Dockerfile that is not at the root fits no pattern.
nested_dockerfile : matches_forbidden (codes "apps/api/Dockerfile") ≡ none
unfolding matches_forbidden glob
nested_dockerfile = refl

agent_pr : is_agent_pr (codes "kola-backend-agent") ≡ true
unfolding is_agent_pr
agent_pr = refl

abbrev pull : PullRequest
pull = record { login = codes "kola-backend-agent"; body = codes "## What a ## Why b ## Test c" }

abbrev changed : List ChangedFile
changed =
    record {
      filename = codes "apps/api/utils/a.py";
      additions = 1;
      deletions = 0;
      status = codes "modified";
      patch = codes "+x = 1";
    }
    ∷ []

abbrev runs : List CheckRun
runs = record { name = codes "ci"; conclusion = some (codes "success") } ∷ []

passes : check_charter_3 pull changed runs ≡ none
unfolding check_charter_3 glob base_name splitlines strip
passes = refl

abbrev ascii : Alphabet
ascii = record { is_word = λ c. is_lower c; fold = λ c. c }

check_charter_4_iff_example : (check_charter_4 ascii changed ≡ none) ↔ IsTolerable ascii changed
check_charter_4_iff_example = check_charter_4_iff ascii changed

-- Two agents reserve 6 of 10 tokens, the second is refused; the first uses 4.
abbrev day_key : Text
day_key = codes "kola:tokens:qa:2026-01-01"

abbrev store : Store
store = record { total = λ _. pos 0; expires = λ _. false }

-- EXPIRE fails, and what was added stays without a reservation.
check_and_reserve_refines_example :
    Leads
      (pos 10)
      day_key
      0
      0
      0
      0
      store
      (check_and_reserve done refused done day_key (pos 10) 6 store)
check_and_reserve_refines_example =
    check_and_reserve_refines (pos 10) day_key 0 0 0 0 done refused done 6 store

abbrev reserved_once : Store
reserved_once = (check_and_reserve done done done day_key (pos 10) 6 store).1

-- The second reservation is beyond the cap, and its rollback is refused.
abbrev reserved_twice : Store
reserved_twice = (check_and_reserve done done refused day_key (pos 10) 6 reserved_once).1

abbrev committed : Store → Store
committed st = commit done (record { key = day_key; reserved = 6 }) 4 st

two_calls : Calls (pos 10) day_key reserved_twice 6 0
unfolding check_and_reserve ◌+ℤ◌
two_calls = reserves done done refused 6 (reserves done done done 6 (begins store refl))

calls-IsWithin_example : pos (0 + 4) ≤ℤ pos 10
calls-IsWithin_example =
    calls-IsWithin (pos 10) day_key (committed reserved_twice) 0 4 (omega arith)
      (commits done 6 0 0 4 two_calls)

one_done : DoneCalls (pos 10) day_key reserved_once 6 0
unfolding check_and_reserve ◌+ℤ◌
one_done = reserves 6 (begins store refl)

DoneCalls-total_example : (committed reserved_once).total day_key ≡ pos (0 + 4)
DoneCalls-total_example =
    DoneCalls-total (pos 10) day_key (committed reserved_once) 0 4 (commits 6 0 0 4 one_done)

dotenv_keeps :
    variable (codes "A") (load_dotenv (some (codes "A=2")) ((codes "A", codes "1") ∷ []))
    ≡ some (codes "1")
unfolding variable
dotenv_keeps =
    load_dotenv_keeps (some (codes "A=2")) (codes "A") (codes "1") ((codes "A", codes "1") ∷ [])
      refl

dotenv_sets :
    variable (codes "B") (load_dotenv (some (codes "# c\nB = 'x=y'")) []) ≡ some (codes "x=y")
unfolding variable load_dotenv
dotenv_sets = refl

abbrev coder : Role
coder = record {
  name = codes "backend";
  git_name = codes "kola-backend-agent";
  git_email = codes "backend@kola-money.local";
  primary_alias = codes "code";
  fallback_alias = some (codes "brain-exec");
  daily_token_cap = 500000;
  llm_timeout_s = 600;
  fallback_timeout_s = 300;
}

abbrev response : Response ℕ
response = record {
  status = 200;
  header = λ _. none;
  body_model = some (codes " qwen ");
  body = some 1;
}

body_names : extract_backend_target response ≡ some (codes "qwen")
unfolding extract_backend_target
body_names = refl

stream_is_off :
    (entry {A = ℕ} (codes "stream") (safe_payload {A = ℕ} 0 ((codes "stream", 1) ∷ [])) ≡ some 0)
    × ((k : Text)
        → codes "stream" ≢ k
        → entry {A = ℕ} k (safe_payload {A = ℕ} 0 ((codes "stream", 1) ∷ []))
          ≡ entry {A = ℕ} k ((codes "stream", 1) ∷ []))
stream_is_off = safe_payload_lem 0 ((codes "stream", 1) ∷ [])

fields_of_5 :
    (uuid_value 5 9 < 2 ^ 128)
    × (uuid_value 5 9 / 2 ^ 80 ≡ 5 % 2 ^ 48)
    × (uuid_value 5 9 / 2 ^ 76 % 2 ^ 4 ≡ 7)
    × (uuid_value 5 9 / 2 ^ 64 % 2 ^ 12 ≡ rand_a 9)
    × (uuid_value 5 9 / 2 ^ 62 % 2 ^ 2 ≡ 2)
    × (uuid_value 5 9 % 2 ^ 62 ≡ rand_b 9)
fields_of_5 = uuid_value_fields 5 9

uuid7_sorts_example : IsBefore (uuid7 5 9) (uuid7 6 0)
uuid7_sorts_example = uuid7_sorts 5 9 6 0 (omega arith) (omega arith)

uuid_of_5 : uuid7 5 9 ≡ codes "00000000-0005-7000-8000-000000000009"
unfolding uuid7
uuid_of_5 = refl

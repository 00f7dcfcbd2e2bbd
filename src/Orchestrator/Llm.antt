-- ===== src/Orchestrator/Llm.antt =====
-- orchestrator/llm.py: a call of a language model, with the second model when the first is not there. What
-- the gateway answers, and what of the answer can be read, are arguments.
pub mod Laws
use talki_llm_admission_sche.Base.{ℕ, leb, Bool, true, false, Option, none, some, List, [], ◌∷◌}
use talki_llm_admission_sche.Orchestrator.Text.{Text}
use talki_llm_admission_sche.Orchestrator.Roles.{Role}

pub record LlmResult : Type 0 where
  pub content : Text
  pub model : Text
  pub prompt_tokens : ℕ
  pub completion_tokens : ℕ
  pub total_tokens : ℕ

-- How the request ends: `httpx.ConnectError`, `httpx.ReadTimeout`, another `httpx.HTTPError`, or an answer
-- with its status and what is read from it, if it is well formed.
pub data Post : Type 0 where
  connect_error read_timeout http_error : Post
  answered : ℕ → Option LlmResult → Post

-- LLMTimeout or LLMError
pub data CallError : Type 0 where
  llm_timeout llm_error : CallError

-- What `_try_one` returns or raises.
pub data Attempt : Type 0 where
  served : LlmResult → Attempt
  retryable : Attempt
  broken : CallError → Attempt

abbrev pub read_answer : Option LlmResult → Attempt
read_answer none = broken llm_error
read_answer (some r) = served r

-- `_try_one`, by how the request ends
unfoldable pub try_one : Post → Attempt
try_one connect_error = retryable
try_one read_timeout = broken llm_timeout
try_one http_error = broken llm_error
try_one (answered status body) = elim (leb 500 status) [
  | true ↦ retryable
  | false ↦ elim (leb 400 status) [ true ↦ broken llm_error | false ↦ read_answer body ]
]

pub data Called : Type 0 where
  result : LlmResult → Called
  raised : CallError → Called

abbrev pub after_fallback : Attempt → Called
after_fallback (served r) = result r
after_fallback retryable = raised llm_error
after_fallback (broken e) = raised e

-- The models that are asked, in order, each with its timeout, and the outcome.
abbrev pub Calls : Type 0
Calls = List (Text × ℕ) × Called

abbrev pub fall_back : Role → (Text → Post) → Option Text → Calls
fall_back role second none = ((role.primary_alias, role.llm_timeout_s) ∷ [], raised llm_error)
fall_back role second (some alias) = (
  (role.primary_alias, role.llm_timeout_s) ∷ (alias, role.fallback_timeout_s) ∷ [],
  after_fallback (try_one (second alias)),
)

abbrev pub after_primary : Role → (Text → Post) → Attempt → Calls
after_primary role second (served r) = ((role.primary_alias, role.llm_timeout_s) ∷ [], result r)
after_primary role second (broken e) = ((role.primary_alias, role.llm_timeout_s) ∷ [], raised e)
after_primary role second retryable = fall_back role second role.fallback_alias

-- `call`, with how the first request ends and how a second does
unfoldable pub call : Role → (Text → Post) → (Text → Post) → Calls
unfolding try_one
call role first second = after_primary role second (try_one (first role.primary_alias))

-- ===== src/Forwarder.antt =====
-- src/app/backend/litellm_forwarder.py: the requests to LiteLLM. What httpx answers is an argument; the
-- client's limits and timeouts are not modelled. Of a response there are the status, the headers, the
-- text that the JSON has as `model`, if there is one, and the JSON, if there is one.
pub mod Laws
use talki_llm_admission_sche.Base.{
  ℕ, leb, ◌==◌, ◌&&◌, Bool, true, false, Option, none, some, List, [], ◌∷◌, ◌++◌, codes,
  if◌then◌else◌,
}
use talki_llm_admission_sche.Orchestrator.Text.{Text, same_text, strip, lstrip_by, rstrip_by}

pub record Response (B : Type 0) : Type 0 where
  pub status : ℕ
  pub header : Text → Option Text
  pub body_model : Option Text
  pub body : Option B

-- `get(header, "").strip()`, and likewise of the body's field
abbrev pub stripped : Option Text → Text
stripped none = []
stripped (some value) = strip value

abbrev pub or_next : Text → Option Text → Option Text
or_next [] next = next
or_next (c ∷ s) next = some (c ∷ s)

abbrev pub deployment_header : Text
deployment_header = codes "x-litellm-deployment"

abbrev pub model_header : Text
model_header = codes "x-litellm-model"

unfoldable pub extract_backend_target : {B : Type 0} → Response B → Option Text
unfolding strip lstrip_by rstrip_by
extract_backend_target r =
    or_next (stripped (r.header deployment_header))
      (or_next (stripped (r.header model_header)) (or_next (stripped r.body_model) none))

-- `d[key] = value`
unfoldable pub set_entry {ℓ} : {A : Type ℓ} → Text → A → List (Text × A) → List (Text × A)
unfolding same_text
set_entry k a [] = (k, a) ∷ []
set_entry k a ((j, b) ∷ d) =
    let rest = set_entry k a d in elim (same_text j k) [ true ↦ (j, a) ∷ d | false ↦ (j, b) ∷ rest ]

unfoldable pub entry {ℓ} : {A : Type ℓ} → Text → List (Text × A) → Option A
unfolding same_text
entry k [] = none
entry k ((j, b) ∷ d) = elim (same_text j k) [ true ↦ some b | false ↦ entry k d ]

-- The payload that is sent, by the JSON's `false`.
unfoldable pub safe_payload {ℓ} : {A : Type ℓ} → A → List (Text × A) → List (Text × A)
unfolding set_entry
safe_payload json_false payload = set_entry (codes "stream") json_false payload

-- `backend_url.rstrip("/")`
abbrev pub base_url : Text → Text
base_url url = rstrip_by (λ c. c == b'/') url

abbrev pub completions_url : Text → Text
completions_url url = base_url url ++ codes "/v1/chat/completions"

-- `health_url`
abbrev pub health_url : Text → Text
health_url url = base_url url ++ codes "/health"

-- How a request ends: with a response, or with an exception of the transport.
pub data Posted (B : Type 0) : Type 0 where
  responded : Response B → Posted B
  failed : Posted B

-- How `forward` ends; RuntimeError, an exception of the transport, HTTPStatusError, or one of the JSON.
pub data Forwarding (B : Type 0) : Type 0 where
  forwarded : B → Option Text → Forwarding B
  not_started transport_failed bad_json : Forwarding B
  status_error : ℕ → Forwarding B

abbrev pub read_body : {B : Type 0} → Option Text → Option B → Forwarding B
read_body target none = bad_json
read_body target (some b) = forwarded b target

-- `raise_for_status` lets the statuses from 200 to 299 pass.
abbrev pub is_success : ℕ → Bool
is_success status = leb 200 status && leb status 299

abbrev pub read_response : {B : Type 0} → Posted B → Forwarding B
read_response failed = transport_failed
read_response (responded r) = elim (is_success r.status) [
  | true ↦ read_body (extract_backend_target r) r.body
  | false ↦ status_error r.status
]

-- `forward`, by whether `start` was called and by what the server answers to a payload at an address
unfoldable pub forward {ℓ} :
    {A : Type ℓ} {B : Type 0}
    → (Text → List (Text × A) → Posted B)
    → A
    → Bool
    → Text
    → List (Text × A)
    → Forwarding B
unfolding extract_backend_target safe_payload rstrip_by
forward server json_false started url payload = elim started [
  | false ↦ not_started
  | true ↦ read_response (server (completions_url url) (safe_payload json_false payload))
]

-- How the request for the health ends.
pub data HealthAnswer : Type 0 where
  health_status : ℕ → HealthAnswer
  health_status_error health_error : HealthAnswer

pub data Health : Type 0 where
  up degraded down : Health

-- What is said, and whether an error is counted.
abbrev pub by_answer : HealthAnswer → Health × Bool
by_answer (health_status status) = (if status == 200 then up else degraded, false)
by_answer health_status_error = (degraded, false)
by_answer health_error = (down, true)

-- `check_health`
unfoldable pub check_health : Bool → HealthAnswer → Health × Bool
check_health started answer = elim started [ false ↦ (down, false) | true ↦ by_answer answer ]

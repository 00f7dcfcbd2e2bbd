-- ===== src/Api/Submission.antt =====
-- The submission of a job.
use Prim.Native.String.{◌++◌}
use talki_llm_admission_sche.Base.{
  ℕ, zero, suc, ◌*◌, Bool, Option, none, some, List, [], ◌∷◌, String, str_eq, if◌then◌else◌,
}
use talki_llm_admission_sche.Base.Int.{ℤ, pos, negsuc, pos_part}
use talki_llm_admission_sche.Base.Decimal.{str}
use talki_llm_admission_sche.State.{
  JobStatus, AdmissionResult, AdmissionOutcome, JobRequest, status_value,
}
use talki_llm_admission_sche.Config.{AppConfig, model_config_for}
use talki_llm_admission_sche.Keys.{job}
use talki_llm_admission_sche.Redis.{
  Env, M, http_exception, pure, raise, ◌>>=◌, ◌>>◌, try_redis, execute, hset, Value, text, number,
  null, get_or,
}
use talki_llm_admission_sche.Python.{or_text}
use talki_llm_admission_sche.Metrics.{record_redis_error, record_timeout}
use talki_llm_admission_sche.Admission.{Submission, admit, config_or_raise}
use talki_llm_admission_sche.Api.Completion.{
  Listener, Waited, finished, timed_out, listening, wait_for_completion,
}
use talki_llm_admission_sche.Api.Jobs.{Readers, load_response_blob}

-- `_store_payload`
unfoldable pub store_payload : Env → String → String → M (Unit {0})
unfolding record_redis_error
store_payload env job_id payload =
    try_redis (execute env (hset (job job_id) (("payload_json", payload) ∷ [])))
      (record_redis_error "store_payload")

-- `caller = x_caller or "unknown"`
abbrev pub with_caller : Option String → Submission → Submission
with_caller x_caller r = record r { caller = or_text (get_or "" x_caller) "unknown" }

-- `if job_req is not None: await _store_payload(…)`
unfoldable pub store_new : Env → Submission → AdmissionOutcome → Option JobRequest → M (Unit {0})
unfolding store_payload
store_new env r outcome none = pure tt
store_new env r outcome (some job_req) = store_payload env outcome.job_id r.payload

pub record JobSubmitResponse : Type 0 where
  pub job_id : String
  pub status : String
  pub position_in_queue : Option ℕ

-- The detail of the 429 is its error; it also has the estimate of the outcome.
unfoldable pub submit_outcome :
    Env → Submission → AdmissionOutcome → Option JobRequest → AdmissionResult → M JobSubmitResponse
unfolding store_new
submit_outcome env r outcome job_req AdmissionResult.rejected =
    raise (http_exception 429 "queue_full")
submit_outcome env r outcome job_req _ = do
  store_new env r outcome job_req
  pure (record {
    job_id = outcome.job_id;
    status = status_value outcome.status;
    position_in_queue = outcome.position_in_queue;
  })

-- POST /jobs
unfoldable pub submit_job : Env → AppConfig → Option String → Submission → M JobSubmitResponse
unfolding submit_outcome
submit_job env config x_caller r = do
  admitted ← admit env config (with_caller x_caller r)
  submit_outcome env r admitted.0 admitted.1 admitted.0.result

-- The body of an answer: a JSON object, or the JSON text that the backend sent.
pub data Content : Type 0 where
  object : List (String × Value) → Content
  blob : String → Content

pub record JsonResponse : Type 0 where
  pub status_code : ℕ
  pub content : Content
  pub headers : List (String × String)

-- `_status_to_http`
unfoldable pub status_to_http : String → ℕ
status_to_http status =
    if str_eq status (status_value JobStatus.failed)
    then 502
    else (if str_eq status (status_value JobStatus.timeout)
        then 504
        else (if str_eq status (status_value JobStatus.cancelled)
            then 409
            else (if str_eq status (status_value JobStatus.rejected) then 429 else 500)))

abbrev pub retry_after : Option ℤ → List (String × String)
retry_after none = []
retry_after (some (pos zero)) = []
retry_after (some (pos (suc n))) = ("Retry-After", str (pos (suc n))) ∷ []
retry_after (some (negsuc n)) = ("Retry-After", str (negsuc n)) ∷ []

abbrev position_value : Option ℕ → Value
position_value none = null
position_value (some n) = number (pos n)

-- An answer that names the job's status.
abbrev pub status_answer : String → String → JsonResponse
status_answer job_id status = record {
  status_code = status_to_http status;
  content =
      object (("error", text "failed") ∷ ("job_id", text job_id) ∷ ("status", text status) ∷ []);
  headers = ("X-Job-Id", job_id) ∷ [];
}

-- `if response_blob`, which an empty JSON object fails.
abbrev pub blob_answer : String → String → Option String → JsonResponse
blob_answer job_id status none = status_answer job_id status
blob_answer job_id status (some body) =
    if str_eq body "{}"
    then status_answer job_id status
    else record { status_code = 200; content = blob body; headers = ("X-Job-Id", job_id) ∷ [] }

abbrev pub timeout_answer : String → ℤ → JsonResponse
timeout_answer job_id sync_timeout = record {
  status_code = 504;
  content = object (
      ("error", text "sync_timeout")
      ∷ ("job_id", text job_id)
      ∷ (
        "message",
        text ("Request timed out after " ++ str sync_timeout ++ "s. Poll via X-Job-Id."),
      )
      ∷ []);
  headers = ("X-Job-Id", job_id) ∷ [];
}

-- The answer to a request that has waited; `none` is a request that waits longer than is looked at.
unfoldable pub answer_waited :
    Env → Readers → String → String → ℤ → Waited → M (Option JsonResponse)
unfolding load_response_blob record_timeout status_to_http
answer_waited env rd model job_id sync_timeout listening = pure none
answer_waited env rd model job_id sync_timeout timed_out = do
  record_timeout model "sync"
  pure (some (timeout_answer job_id sync_timeout))
answer_waited env rd model job_id sync_timeout (finished status) =
    if str_eq status (status_value JobStatus.completed)
    then (load_response_blob env rd job_id >>= λ body. pure (some (blob_answer job_id status body)))
    else pure (some (status_answer job_id status))

unfoldable pub wait_and_answer :
    ℕ → Env → AppConfig → Readers → Listener → String → String → M (Option JsonResponse)
unfolding wait_for_completion answer_waited config_or_raise
wait_and_answer rounds env config rd heard model job_id = do
  model_cfg ← config_or_raise (model_config_for config model)
  waited ←
      wait_for_completion rounds env heard job_id
        (pos_part model_cfg.sync_timeout_seconds * 1000000000)
  answer_waited env rd model job_id model_cfg.sync_timeout_seconds waited

abbrev pub full_answer : AdmissionOutcome → JsonResponse
full_answer outcome = record {
  status_code = 429;
  content = object (("error", text "queue_full") ∷ ("job_id", text outcome.job_id) ∷ []);
  headers = retry_after outcome.estimated_drain_s;
}

abbrev pub hit_answer : String → JsonResponse
hit_answer job_id = record {
  status_code = 200;
  content =
      object (("job_id", text job_id) ∷ ("status", text (status_value JobStatus.queued)) ∷ []);
  headers = ("X-Job-Id", job_id) ∷ [];
}

abbrev pub async_answer : AdmissionOutcome → JsonResponse
async_answer outcome = record {
  status_code = 202;
  content = object (
      ("job_id", text outcome.job_id)
      ∷ ("status", text (status_value outcome.status))
      ∷ ("position_in_queue", position_value outcome.position_in_queue)
      ∷ []);
  headers = ("X-Job-Id", outcome.job_id) ∷ [];
}

unfoldable pub chat_outcome :
    ℕ
    → Env
    → AppConfig
    → Readers
    → Listener
    → Bool
    → Submission
    → AdmissionOutcome
    → Option JobRequest
    → AdmissionResult
    → M (Option JsonResponse)
unfolding store_new wait_and_answer
chat_outcome rounds env config rd heard use_async r outcome job_req AdmissionResult.rejected =
    pure (some (full_answer outcome))
chat_outcome rounds env config rd heard use_async r outcome job_req AdmissionResult.idempotent_hit =
    pure (some (hit_answer (or_text (get_or "" outcome.existing_job_id) outcome.job_id)))
chat_outcome rounds env config rd heard use_async r outcome job_req _ = do
  store_new env r outcome job_req
  (if use_async
      then pure (some (async_answer outcome))
      else wait_and_answer rounds env config rd heard r.model outcome.job_id)

-- POST /v1/chat/completions
unfoldable pub chat_completions :
    ℕ
    → Env
    → AppConfig
    → Readers
    → Listener
    → Bool
    → Option String
    → Submission
    → M (Option JsonResponse)
unfolding chat_outcome
chat_completions rounds env config rd heard use_async x_caller r = do
  admitted ← admit env config (with_caller x_caller r)
  chat_outcome rounds env config rd heard use_async r admitted.0 admitted.1 admitted.0.result

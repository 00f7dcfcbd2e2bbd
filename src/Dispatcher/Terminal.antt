-- ===== src/Dispatcher/Terminal.antt =====
-- The ends of a job in the dispatcher: its terminal status, the release of its slot, the message
-- to the waiting caller. Durations are in nanoseconds.
use talki_llm_admission_sche.Base.{ℕ, zero, suc, ◌/◌, true, Option, none, some, [], ◌∷◌, String}
use mathlib.Core.List.{◌++◌ as append}
use talki_llm_admission_sche.Base.Int.{ℤ, pos}
use talki_llm_admission_sche.Base.Decimal.{str}
use talki_llm_admission_sche.State.{
  JobStatus, ErrorClass, EventType, status_value, error_value, event_value,
}
use talki_llm_admission_sche.Keys.{job, lease, inflight, slots_in_use}
use talki_llm_admission_sche.Redis.{
  Env, M, pure, ◌>>=◌, ◌>>◌, try_redis, execute, pipeline, iso_now, hset, expire, decr, zrem,
  delete, publish, Value, text, number, flag, null, Fields, get_or,
}
use talki_llm_admission_sche.Metrics.{
  record_redis_error, record_completion, record_failure, record_cancel,
}
use talki_llm_admission_sche.EventLog.{build_base_event, build_completed_event, emit}

-- What is read of a LiteLLM response, and the gzipped JSON text of it.
pub record Response : Type 0 where
  pub body : String
  pub blob : String
  pub prompt_tokens : Option ℤ
  pub completion_tokens : Option ℤ

-- What the dispatcher has read of a job when it forwards it.
pub record Job : Type 0 where
  pub job_id : String
  pub request_id : String
  pub model : String
  pub caller : String
  pub priority : ℤ

-- `_publish`
unfoldable pub publish_status : Env → String → JobStatus → M (Unit {0})
publish_status env job_id status =
    try_redis (execute env (publish job_id (status_value status))) (record_redis_error "publish")

-- `_release_slot`
unfoldable pub release_slot : Env → String → String → M (Unit {0})
unfolding record_redis_error
release_slot env model job_id =
    try_redis
      (pipeline env
        (decr (slots_in_use model) ∷ zrem (inflight model) job_id ∷ delete (lease job_id) ∷ []))
      (record_redis_error "release_slot")

-- `_cleanup_slot`
unfoldable pub cleanup_slot : Env → String → String → JobStatus → ErrorClass → M (Unit {0})
unfolding release_slot publish_status
cleanup_slot env model job_id status error_class = do
  ts ← iso_now env
  try_redis
      (execute env (
        hset (job job_id) (
          ("status", status_value status)
          ∷ ("error_class", error_value error_class)
          ∷ ("complete_ts", ts)
          ∷ [])))
      (pure tt)
  release_slot env model job_id
  publish_status env job_id status

-- `int(s * 1000)` of a duration.
abbrev pub millis : ℕ → ℤ
millis ns = pos (ns / 1000000)

-- `_mark_completed`
unfoldable pub mark_completed : Env → Job → Response → ℕ → ℕ → Option String → M (Unit {0})
unfolding publish_status record_redis_error record_completion emit build_completed_event
mark_completed env j response wait_s backend_s backend_target = do
  complete_ts ← iso_now env
  try_redis
      (pipeline env (
        hset (job j.job_id) (
          ("status", status_value JobStatus.completed)
          ∷ ("complete_ts", complete_ts)
          ∷ ("response_blob", response.blob)
          ∷ [])
        ∷ expire (job j.job_id) 3600
        ∷ []))
      (record_redis_error "mark_completed")
  publish_status env j.job_id JobStatus.completed
  record_completion j.model wait_s backend_s backend_s
  emit env (λ ts.
      build_completed_event ts j.job_id j.request_id j.model j.caller "{}" j.priority
        (millis wait_s) (millis backend_s) (get_or (pos 0) response.prompt_tokens)
        (get_or (pos 0) response.completion_tokens) backend_target)

-- `error_message[:500]`
unfoldable pub first_chars : ℕ → String → String
first_chars zero s = String.[]
first_chars (suc n) String.[] = String.[]
first_chars (suc n) (String.◌∷◌ c s) = String.◌∷◌ c (first_chars n s)

abbrev pub http_status_field : Option ℕ → Fields
http_status_field none = []
http_status_field (some n) = ("http_status", str (pos n)) ∷ []

abbrev pub http_status_value : Option ℕ → Value
http_status_value none = null
http_status_value (some n) = number (pos n)

-- `_mark_failed`
unfoldable pub mark_failed : Env → Job → ErrorClass → String → Option ℕ → M (Unit {0})
unfolding publish_status record_redis_error record_failure emit build_base_event
mark_failed env j error_class error_message http_status = do
  complete_ts ← iso_now env
  try_redis
      (pipeline env (
        hset (job j.job_id) (
          ("status", status_value JobStatus.failed)
          ∷ ("complete_ts", complete_ts)
          ∷ ("error_class", error_value error_class)
          ∷ ("error_message", first_chars 500 error_message)
          ∷ http_status_field http_status)
        ∷ expire (job j.job_id) 3600
        ∷ []))
      (record_redis_error "mark_failed")
  publish_status env j.job_id JobStatus.failed
  record_failure j.model (error_value error_class)
  emit env (λ ts.
      append
        (build_base_event ts (event_value EventType.failed) j.job_id j.request_id j.model j.caller
          "{}" j.priority)
        (("error_class", text (error_value error_class))
          ∷ ("error_message", text (first_chars 500 error_message))
          ∷ ("http_status", http_status_value http_status)
          ∷ []))

-- `_mark_cancelled_dispatched`
unfoldable pub mark_cancelled : Env → Job → M (Unit {0})
unfolding publish_status record_redis_error record_cancel emit build_base_event
mark_cancelled env j = do
  complete_ts ← iso_now env
  try_redis
      (pipeline env (
        hset (job j.job_id)
          (("status", status_value JobStatus.cancelled) ∷ ("complete_ts", complete_ts) ∷ [])
        ∷ expire (job j.job_id) 3600
        ∷ []))
      (record_redis_error "mark_cancelled")
  publish_status env j.job_id JobStatus.cancelled
  record_cancel j.model
  emit env (λ ts.
      append
        (build_base_event ts (event_value EventType.cancelled) j.job_id j.request_id j.model
          j.caller "{}" j.priority)
        (("was_dispatched", flag true) ∷ []))

-- ===== src/Dispatcher/Final.antt =====
-- What the dispatcher writes at the end of a job, by how its forwarding ended.
use talki_llm_admission_sche.Base.{List, [], ◌∷◌, String}
use talki_llm_admission_sche.Base.Int.{pos}
use talki_llm_admission_sche.Base.Decimal.{str}
use talki_llm_admission_sche.State.{JobStatus, ErrorClass, status_value, error_value}
use talki_llm_admission_sche.Keys.{job, lease, inflight, slots_in_use}
use talki_llm_admission_sche.Redis.{Command, Fields, hset, expire, publish, decr, zrem, delete}
use talki_llm_admission_sche.Dispatcher.{
  Forwarded, responded, http_status_error, timeout_exception, connect_error, other_exception,
  cancelled, first_chars, status_error_class,
}

-- The status with which a job ends, by how its forwarding ended.
abbrev pub final_status : Forwarded → JobStatus
final_status (responded r target) = JobStatus.completed
final_status (http_status_error code message) = JobStatus.failed
final_status (timeout_exception message) = JobStatus.failed
final_status (connect_error message) = JobStatus.failed
final_status (other_exception message) = JobStatus.failed
final_status cancelled = JobStatus.cancelled

abbrev pub failure_fields : ErrorClass → String → Fields
failure_fields e message =
    ("error_class", error_value e) ∷ ("error_message", first_chars 500 message) ∷ []

-- The fields that are written with the status and the time.
abbrev pub outcome_fields : Forwarded → Fields
outcome_fields (responded r target) = ("response_blob", r.blob) ∷ []
outcome_fields (http_status_error code message) =
    ("error_class", error_value (status_error_class code))
    ∷ ("error_message", first_chars 500 message)
    ∷ ("http_status", str (pos code))
    ∷ []
outcome_fields (timeout_exception message) = failure_fields ErrorClass.backend_timeout message
outcome_fields (connect_error message) = failure_fields ErrorClass.network_error message
outcome_fields (other_exception message) = failure_fields ErrorClass.backend_5xx message
outcome_fields cancelled = []

abbrev pub final_commands : Forwarded → String → String → String → List Command
final_commands f model job_id ts =
    hset (job job_id)
      (("status", status_value (final_status f)) ∷ ("complete_ts", ts) ∷ outcome_fields f)
    ∷ expire (job job_id) 3600
    ∷ publish job_id (status_value (final_status f))
    ∷ decr (slots_in_use model)
    ∷ zrem (inflight model) job_id
    ∷ delete (lease job_id)
    ∷ []

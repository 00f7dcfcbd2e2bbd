-- ===== src/State.antt =====
-- app/state.py: the enumerations of the job lifecycle with their wire values, and the two records
-- of an admission.
use talki_llm_admission_sche.Base.{ℕ, Option, String}
use talki_llm_admission_sche.Base.Int.{ℤ}

pub data JobStatus : Type 0 where
  queued dispatched completed failed timeout cancelled rejected cancelling : JobStatus

pub data EventType : Type 0 where
  admitted queued dispatched completed failed timeout cancelled rejected : EventType
  worker_crash slot_drift_corrected : EventType

pub data ErrorClass : Type 0 where
  queue_timeout sync_timeout backend_5xx backend_timeout backend_429 : ErrorClass
  network_error worker_crash admission_rejected : ErrorClass

pub data AdmissionResult : Type 0 where
  admitted queued rejected idempotent_hit : AdmissionResult

-- `JobStatus.X.value`, and so for the other three.
abbrev pub status_value : JobStatus → String
status_value JobStatus.queued = "queued"
status_value JobStatus.dispatched = "dispatched"
status_value JobStatus.completed = "completed"
status_value JobStatus.failed = "failed"
status_value JobStatus.timeout = "timeout"
status_value JobStatus.cancelled = "cancelled"
status_value JobStatus.rejected = "rejected"
status_value JobStatus.cancelling = "cancelling"

abbrev pub event_value : EventType → String
event_value EventType.admitted = "admitted"
event_value EventType.queued = "queued"
event_value EventType.dispatched = "dispatched"
event_value EventType.completed = "completed"
event_value EventType.failed = "failed"
event_value EventType.timeout = "timeout"
event_value EventType.cancelled = "cancelled"
event_value EventType.rejected = "rejected"
event_value EventType.worker_crash = "worker_crash"
event_value EventType.slot_drift_corrected = "slot_drift_corrected"

abbrev pub error_value : ErrorClass → String
error_value ErrorClass.queue_timeout = "queue_timeout"
error_value ErrorClass.sync_timeout = "sync_timeout"
error_value ErrorClass.backend_5xx = "backend_5xx"
error_value ErrorClass.backend_timeout = "backend_timeout"
error_value ErrorClass.backend_429 = "backend_429"
error_value ErrorClass.network_error = "network_error"
error_value ErrorClass.worker_crash = "worker_crash"
error_value ErrorClass.admission_rejected = "admission_rejected"

abbrev pub result_value : AdmissionResult → String
result_value AdmissionResult.admitted = "admitted"
result_value AdmissionResult.queued = "queued"
result_value AdmissionResult.rejected = "rejected"
result_value AdmissionResult.idempotent_hit = "idempotent_hit"

-- JSON objects (`payload`, `caller_metadata`) are kept as their JSON text, and `enqueue_ts` in
-- nanoseconds.
pub record JobRequest : Type 0 where
  pub job_id : String
  pub request_id : String
  pub model : String
  pub payload : String
  pub priority : ℤ
  pub caller : String
  pub caller_metadata : String
  pub idempotency_key : Option String
  pub enqueue_ts : ℕ

pub record AdmissionOutcome : Type 0 where
  pub result : AdmissionResult
  pub job_id : String
  pub status : JobStatus
  pub position_in_queue : Option ℕ
  pub existing_job_id : Option String
  pub estimated_drain_s : Option ℤ

-- ===== src/Admission/Controller.antt =====
-- AdmissionController.admit.
use talki_llm_admission_sche.Base.{
  ℕ, Option, none, some, [], ◌∷◌, ◌++◌, String, str_eq, ◌==◌, if◌then◌else◌,
}
use talki_llm_admission_sche.Base.Int.{ℤ, pos}
use talki_llm_admission_sche.Base.Decimal.{str}
use talki_llm_admission_sche.State.{
  JobRequest, AdmissionOutcome, AdmissionResult, JobStatus, status_value, result_value,
}
use talki_llm_admission_sche.Config.{AppConfig, ModelConfig, model_config_for}
use talki_llm_admission_sche.Keys.{queue, job, idem, seq}
use talki_llm_admission_sche.Redis.{
  Env, M, pure, raise, ◌>>=◌, ◌>>◌, execute, iso_now, time_ns, get_text, incr, zcard, zrank, get_or,
  set_text_nx, validation_error, number, Fields,
}
use talki_llm_admission_sche.Scripts.{evalsha_enqueue_job, flat}
use talki_llm_admission_sche.Metrics.{record_admission}
use talki_llm_admission_sche.EventLog.{build_base_event, emit}
use talki_llm_admission_sche.Admission.Score.{score, estimate_drain}

-- The arguments of `admit`, and the two identifiers that it generates.
pub record Submission : Type 0 where
  pub model : String
  pub payload : String
  pub priority : Option ℤ
  pub caller : String
  pub caller_metadata : Option String
  pub idempotency_key : Option String
  pub request_id : String
  pub job_id : String

abbrev pub Admitted : Type 0
Admitted = AdmissionOutcome × Option JobRequest

-- `if idempotency_key:`, which an empty key fails too.
abbrev pub given : Option String → Option String
given none = none
given (some k) = if str_eq k "" then none else some k

abbrev pub effective_priority : Option ℤ → ModelConfig → ℤ
effective_priority priority c = get_or c.priority priority

unfoldable pub config_or_raise : Option ModelConfig → M ModelConfig
config_or_raise none = raise validation_error
config_or_raise (some c) = pure c

unfoldable pub find_existing : Env → Option String → M (Option String)
find_existing env none = pure none
find_existing env (some key) = execute env (get_text (idem (env.sha256 key)))

unfoldable pub answer_hit : Submission → String → M Admitted
unfolding record_admission
answer_hit r jid = do
  record_admission r.model (result_value AdmissionResult.idempotent_hit)
  pure (
    record {
      result = AdmissionResult.idempotent_hit;
      job_id = jid;
      status = JobStatus.queued;
      position_in_queue = none;
      existing_job_id = some jid;
      estimated_drain_s = none;
    },
    none,
  )

unfoldable pub job_request : Submission → ℤ → ℕ → JobRequest
job_request r priority enqueue_ts = record {
  job_id = r.job_id;
  request_id = r.request_id;
  model = r.model;
  payload = r.payload;
  priority = priority;
  caller = r.caller;
  caller_metadata = get_or "{}" r.caller_metadata;
  idempotency_key = r.idempotency_key;
  enqueue_ts = enqueue_ts;
}

-- The fields of a new job's hash.
abbrev pub job_fields : Submission → ℤ → String → Fields
job_fields r priority enqueue_ts =
    ("model", r.model)
    ∷ ("status", status_value JobStatus.queued)
    ∷ ("priority", str priority)
    ∷ ("enqueue_ts", enqueue_ts)
    ∷ ("caller", r.caller)
    ∷ ("request_id", r.request_id)
    ∷ []

unfoldable pub reject : Env → ModelConfig → Submission → JobRequest → M Admitted
unfolding record_admission emit build_base_event estimate_drain
reject env model_cfg r job_req = do
  queue_depth ← execute env (zcard (queue r.model))
  record_admission r.model (result_value AdmissionResult.rejected)
  emit env (λ ts.
      build_base_event ts "rejected" r.job_id r.request_id r.model r.caller
        (get_or "{}" r.caller_metadata) job_req.priority
      ++ (("queue_depth", number (pos queue_depth))
          ∷ ("capacity", number model_cfg.max_queue_depth)
          ∷ []))
  pure (
    record {
      result = AdmissionResult.rejected;
      job_id = r.job_id;
      status = JobStatus.rejected;
      position_in_queue = none;
      existing_job_id = none;
      estimated_drain_s = some (pos (estimate_drain queue_depth model_cfg.max_concurrency));
    },
    some job_req,
  )

unfoldable pub record_key : Env → Submission → Option String → M (Unit {0})
record_key env r none = pure tt
record_key env r (some key) = execute env (set_text_nx (idem (env.sha256 key)) r.job_id 86400)

unfoldable pub accept : Env → Submission → JobRequest → M Admitted
unfolding record_admission emit build_base_event record_key
accept env r job_req = do
  record_key env r (given r.idempotency_key)
  queue_pos ← execute env (zrank (queue r.model) r.job_id)
  record_admission r.model (result_value AdmissionResult.queued)
  current_depth ← execute env (zcard (queue r.model))
  emit env (λ ts.
      build_base_event ts "queued" r.job_id r.request_id r.model r.caller
        (get_or "{}" r.caller_metadata) job_req.priority
      ++ (("queue_depth_at_admission", number (pos current_depth)) ∷ []))
  pure (
    record {
      result = AdmissionResult.queued;
      job_id = r.job_id;
      status = JobStatus.queued;
      position_in_queue = some (get_or 0 queue_pos);
      existing_job_id = none;
      estimated_drain_s = none;
    },
    some job_req,
  )

unfoldable pub finish : Env → ModelConfig → Submission → JobRequest → ℕ → M Admitted
unfolding reject accept
finish env model_cfg r job_req queued =
    if queued == 0 then reject env model_cfg r job_req else accept env r job_req

unfoldable pub submit : Env → ModelConfig → Submission → M Admitted
unfolding score job_request evalsha_enqueue_job finish
submit env model_cfg r = do
  let priority = effective_priority r.priority model_cfg
  created ← time_ns env
  seq_no ← execute env (incr (seq r.model))
  enqueue_ns ← time_ns env
  enqueue_ts ← iso_now env
  queued ←
      evalsha_enqueue_job env (queue r.model) (job r.job_id) r.job_id
        (score priority enqueue_ns seq_no) model_cfg.max_queue_depth
        (flat (job_fields r priority enqueue_ts))
  finish env model_cfg r (job_request r priority created) queued

unfoldable pub admit_checked : Env → ModelConfig → Submission → Option String → M Admitted
unfolding answer_hit
admit_checked env model_cfg r none = submit env model_cfg r
admit_checked env model_cfg r (some jid) = answer_hit r jid

unfoldable pub admit : Env → AppConfig → Submission → M Admitted
unfolding config_or_raise find_existing admit_checked
admit env config r = do
  model_cfg ← config_or_raise (model_config_for config r.model)
  existing ← find_existing env (given r.idempotency_key)
  admit_checked env model_cfg r existing

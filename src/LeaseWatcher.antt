-- ===== src/LeaseWatcher.antt =====
-- app/core/lease_watcher.py: LeaseWatcher, which gives up the jobs whose dispatcher has died. Times
-- are in nanoseconds. The task's own sleep and its start and stop are not modelled.
use talki_llm_admission_sche.Base.{
  suc, ◌*◌, ◌/◌, Bool, true, false, Option, none, some, List, [], ◌∷◌, ◌++◌, String,
}
use talki_llm_admission_sche.Base.Int.{ℤ, pos, negsuc, ◌-ℤ◌}
use talki_llm_admission_sche.State.{
  JobStatus, ErrorClass, EventType, status_value, error_value, event_value,
}
use talki_llm_admission_sche.Config.{AppConfig, ModelConfig, model_config_for, all_model_names}
use talki_llm_admission_sche.Keys.{job, lease, inflight, slots_in_use, dlq}
use talki_llm_admission_sche.Redis.{
  Env, M, Command, raise, validation_error, pure, ◌>>=◌, ◌>>◌, try_redis, try_any, execute,
  pipeline, iso_now, time_ns, hset, expire, decr, zrem, sadd, publish, exists, zscore, hget, scard,
  zrangebyscore, number, get_or,
}
use talki_llm_admission_sche.Python.{IntParser, int_or_5, counting_errors}
use talki_llm_admission_sche.Metrics.{
  record_redis_error, record_worker_crash, record_failure, update_dlq_depth,
}
use talki_llm_admission_sche.EventLog.{build_base_event, emit}
use talki_llm_admission_sche.Dispatcher.{lease_ttl}

-- The transaction that gives a job up.
abbrev pub reclaim_commands : String → String → String → List Command
reclaim_commands model job_id complete_ts =
    hset (job job_id) (
      ("status", status_value JobStatus.failed)
      ∷ ("error_class", error_value ErrorClass.worker_crash)
      ∷ ("complete_ts", complete_ts)
      ∷ [])
    ∷ expire (job job_id) 3600
    ∷ decr (slots_in_use model)
    ∷ zrem (inflight model) job_id
    ∷ sadd (dlq model) job_id
    ∷ []

-- `int((now - dispatch_epoch) * 1000)`, which Python rounds towards zero.
abbrev pub millis_ℤ : ℤ → ℤ
millis_ℤ (pos n) = pos (n / 1000000)
millis_ℤ (negsuc n) = pos 0 -ℤ pos (suc n / 1000000)

-- What the log says of the job, or the defaults if anything fails.
unfoldable pub caller_info : Env → IntParser → String → M (String × String × ℤ)
caller_info env parse_int job_id =
    try_any
      (do
        caller ← execute env (hget (job job_id) "caller")
        request_id ← execute env (hget (job job_id) "request_id")
        prio ← execute env (hget (job job_id) "priority")
        priority ← int_or_5 parse_int (get_or "" prio)
        pure (get_or "" caller, get_or "" request_id, priority))
      (pure ("", "", pos 5))

unfoldable pub log_crash : Env → String → String → ℤ → String × String × ℤ → M (Unit {0})
unfolding emit build_base_event
log_crash env model job_id lease_age_ms (caller, request_id, priority) = emit env (λ ts.
    build_base_event ts (event_value EventType.worker_crash) job_id request_id model caller "{}"
      priority
    ++ (("lease_age_ms", number lease_age_ms) ∷ []))

-- What follows the transaction: the message, the metrics, the log, the gauge.
unfoldable pub announce : Env → IntParser → String → String → ℤ → M (Unit {0})
unfolding record_redis_error record_worker_crash record_failure update_dlq_depth
announce env parse_int model job_id lease_age_ms = do
  try_redis (execute env (publish job_id (status_value JobStatus.failed)))
      (record_redis_error "lease_reclaim_publish")
  record_worker_crash model
  record_failure model (error_value ErrorClass.worker_crash)
  info ← caller_info env parse_int job_id
  log_crash env model job_id lease_age_ms info
  try_redis (execute env (scard (dlq model)) >>= λ size. update_dlq_depth model (pos size))
      (pure tt)

unfoldable pub announce_if :
    Env → IntParser → String → String → ℤ → Option (Unit {0}) → M (Unit {0})
unfolding announce
announce_if env parse_int model job_id lease_age_ms none = pure tt
announce_if env parse_int model job_id lease_age_ms (some _) =
    announce env parse_int model job_id lease_age_ms

-- A job whose lease is gone.
unfoldable pub reclaim : Env → IntParser → String → String → ℤ → M (Unit {0})
unfolding counting_errors announce_if
reclaim env parse_int model job_id now = do
  score_raw ← try_redis (execute env (zscore (inflight model) job_id)) (pure none)
  let dispatch_epoch = get_or (now -ℤ pos 60000000000) score_raw
  complete_ts ← iso_now env
  written ←
      counting_errors "lease_reclaim_write"
        (pipeline env (reclaim_commands model job_id complete_ts))
  announce_if env parse_int model job_id (millis_ℤ (now -ℤ dispatch_epoch)) written

unfoldable pub by_lease : Env → IntParser → String → String → ℤ → Option Bool → M (Unit {0})
unfolding reclaim
by_lease env parse_int model job_id now none = pure tt
by_lease env parse_int model job_id now (some true) = pure tt
by_lease env parse_int model job_id now (some false) = reclaim env parse_int model job_id now

-- `_reclaim_if_orphaned`
unfoldable pub reclaim_if_orphaned : Env → IntParser → String → String → ℤ → M (Unit {0})
unfolding counting_errors by_lease
reclaim_if_orphaned env parse_int model job_id now = do
  lease_exists ← counting_errors "lease_exists_check" (execute env (exists (lease job_id)))
  by_lease env parse_int model job_id now lease_exists

unfoldable pub reclaim_all : Env → IntParser → String → ℤ → List String → M (Unit {0})
unfolding reclaim_if_orphaned
reclaim_all env parse_int model now [] = pure tt
reclaim_all env parse_int model now (job_id ∷ candidates) = do
  reclaim_if_orphaned env parse_int model job_id now
  reclaim_all env parse_int model now candidates

unfoldable pub scan_with : Env → IntParser → String → Option ModelConfig → M (Unit {0})
unfolding counting_errors reclaim_all lease_ttl
scan_with env parse_int model none = raise validation_error
scan_with env parse_int model (some model_cfg) = do
  now ← time_ns env
  candidates ← counting_errors "zrangebyscore_inflight" (
      execute env (
        zrangebyscore (inflight model) (pos 0) (pos now -ℤ pos (lease_ttl model_cfg * 1000000000))))
  reclaim_all env parse_int model (pos now) (get_or [] candidates)

-- `_scan_model`
unfoldable pub scan_model : Env → IntParser → AppConfig → String → M (Unit {0})
unfolding scan_with
scan_model env parse_int config model =
    scan_with env parse_int model (model_config_for config model)

unfoldable pub scan_models : Env → IntParser → AppConfig → List String → M (Unit {0})
unfolding scan_model
scan_models env parse_int config [] = pure tt
scan_models env parse_int config (model ∷ models) = do
  scan_model env parse_int config model
  scan_models env parse_int config models

-- `_scan_all_models`, under the handler of `_run`.
unfoldable pub scan_all_models : Env → IntParser → AppConfig → M (Unit {0})
unfolding scan_models record_redis_error
scan_all_models env parse_int config =
    try_any (scan_models env parse_int config (all_model_names config.models))
      (record_redis_error "lease_watcher_scan")

-- ===== src/Slots/Reclaim.antt =====
-- The lease watcher (app/core/lease_watcher.py) and the bound on slots.
use mathlib.Core.Path.{subst}
use talki_llm_admission_sche.Base.{
  ◌*◌, String, List, [], ◌∷◌, Option, none, some, Bool, true, false, Bool-cases, inl, inr,
}
use talki_llm_admission_sche.Base.Int.{ℤ, pos, ◌-ℤ◌}
use talki_llm_admission_sche.Config.{AppConfig, ModelConfig, model_config_for, all_model_names}
use talki_llm_admission_sche.State.{JobStatus, ErrorClass, status_value, error_value}
use talki_llm_admission_sche.Keys.{inflight, lease, job}
use talki_llm_admission_sche.Redis.{
  Env, Keyspace, IsRedis, World, documented, run_all, has_key, effect, hset, get_or,
  validation_error, exists, zscore, zrangebyscore,
}
use talki_llm_admission_sche.Redis.Keeps.{
  Keeps, OthersKeep, on_documented, env_path, keeps, bind-Keeps, pure-Keeps, then-Keeps,
  raise-Keeps, execute-Keeps, pipeline-Keeps, try-Keeps, try_any-Keeps, iso_now-Keeps,
  time_ns-Keeps,
}
use talki_llm_admission_sche.Python.{IntParser}
use talki_llm_admission_sche.Python.Keeps.{
  counting_errors-Keeps, record_redis_error-Keeps, int_or_5-Keeps,
}
use talki_llm_admission_sche.Metrics.{
  record_worker_crash, record_failure, update_dlq_depth, record_redis_error,
}
use talki_llm_admission_sche.LeaseWatcher.{
  reclaim_commands, caller_info, log_crash, announce, announce_if, reclaim, by_lease, millis_ℤ,
  reclaim_if_orphaned, reclaim_all, scan_with, scan_model, scan_models, scan_all_models,
}
use talki_llm_admission_sche.Dispatcher.{lease_ttl}
use talki_llm_admission_sche.Slots.Bound.{InBound, decr-InBound}

module _ (model : String) (c : ℤ) (env : Env) (others : OthersKeep (InBound model c) env) where
  reclaimed :
      (m job_id ts : String) (s : Keyspace)
      → InBound model c s
      → InBound model c (run_all documented (reclaim_commands m job_id ts) s)
  reclaimed m job_id ts s h =
      elim (Bool-cases (
        has_key (job job_id) (
          effect
            (hset (job job_id) (
              ("status", status_value JobStatus.failed)
              ∷ ("error_class", error_value ErrorClass.worker_crash)
              ∷ ("complete_ts", ts)
              ∷ []))
            s))) [
              | inl e ↦ rw e (decr-InBound model c m s h)
              | inr e ↦ rw e (decr-InBound model c m s h)
            ]

  caller_info-Keeps :
      (p : IntParser) (job_id : String)
      → Keeps (InBound model c) (caller_info (on_documented env) p job_id)
  unfolding caller_info
  caller_info-Keeps p job_id = search (keeps, int_or_5-Keeps) depth 12

  log_crash-Keeps :
      (m job_id : String) (n : ℤ) (info : String × String × ℤ)
      → Keeps (InBound model c) (log_crash (on_documented env) m job_id n info)
  unfolding log_crash
  log_crash-Keeps m job_id n (a, b, d) = search keeps

  announce-Keeps :
      (p : IntParser) (m job_id : String) (n : ℤ)
      → Keeps (InBound model c) (announce (on_documented env) p m job_id n)
  unfolding announce record_worker_crash record_failure update_dlq_depth record_redis_error
  announce-Keeps p m job_id n = search (keeps, caller_info-Keeps, log_crash-Keeps) depth 12

  announce_if-Keeps :
      (p : IntParser) (m job_id : String) (n : ℤ) (o : Option (Unit {0}))
      → Keeps (InBound model c) (announce_if (on_documented env) p m job_id n o)
  unfolding announce_if
  announce_if-Keeps p m job_id n none = pure-Keeps tt
  announce_if-Keeps p m job_id n (some _) = announce-Keeps p m job_id n

  reclaim-Keeps :
      (p : IntParser) (m job_id : String) (now : ℤ)
      → Keeps (InBound model c) (reclaim (on_documented env) p m job_id now)
  unfolding reclaim
  reclaim-Keeps p m job_id now =
      bind-Keeps
        (try-Keeps (execute-Keeps env (zscore (inflight m) job_id) others (λ s h. h))
          (pure-Keeps none))
        (λ score_raw. bind-Keeps (iso_now-Keeps env) (λ ts.
          bind-Keeps
            (counting_errors-Keeps "lease_reclaim_write"
              (pipeline-Keeps env (reclaim_commands m job_id ts) others (reclaimed m job_id ts)))
            (λ o.
              announce_if-Keeps p m job_id
                (millis_ℤ (now -ℤ get_or (now -ℤ pos 60000000000) score_raw)) o)))

  by_lease-Keeps :
      (p : IntParser) (m job_id : String) (now : ℤ) (o : Option Bool)
      → Keeps (InBound model c) (by_lease (on_documented env) p m job_id now o)
  unfolding by_lease
  by_lease-Keeps p m job_id now none = pure-Keeps tt
  by_lease-Keeps p m job_id now (some true) = pure-Keeps tt
  by_lease-Keeps p m job_id now (some false) = reclaim-Keeps p m job_id now

  reclaim_if_orphaned-Keeps :
      (p : IntParser) (m job_id : String) (now : ℤ)
      → Keeps (InBound model c) (reclaim_if_orphaned (on_documented env) p m job_id now)
  unfolding reclaim_if_orphaned
  reclaim_if_orphaned-Keeps p m job_id now =
      bind-Keeps
        (counting_errors-Keeps "lease_exists_check"
          (execute-Keeps env (exists (lease job_id)) others (λ s h. h)))
        (by_lease-Keeps p m job_id now)

  reclaim_all-Keeps :
      (p : IntParser) (m : String) (now : ℤ) (jobs : List String)
      → Keeps (InBound model c) (reclaim_all (on_documented env) p m now jobs)
  unfolding reclaim_all
  reclaim_all-Keeps p m now [] = pure-Keeps tt
  reclaim_all-Keeps p m now (job_id ∷ jobs) =
      then-Keeps (reclaim_if_orphaned-Keeps p m job_id now) (reclaim_all-Keeps p m now jobs)

  scan_with-Keeps :
      (p : IntParser) (m : String) (o : Option ModelConfig)
      → Keeps (InBound model c) (scan_with (on_documented env) p m o)
  unfolding scan_with
  scan_with-Keeps p m none = raise-Keeps validation_error
  scan_with-Keeps p m (some k) = bind-Keeps (time_ns-Keeps env) (λ now.
      bind-Keeps
        (counting_errors-Keeps "zrangebyscore_inflight" (
          execute-Keeps env
            (zrangebyscore (inflight m) (pos 0) (pos now -ℤ pos (lease_ttl k * 1000000000))) others
            (λ s h. h)))
        (λ candidates. reclaim_all-Keeps p m (pos now) (get_or [] candidates)))

  scan_models-Keeps :
      (p : IntParser) (config : AppConfig) (ms : List String)
      → Keeps (InBound model c) (scan_models (on_documented env) p config ms)
  unfolding scan_models scan_model
  scan_models-Keeps p config [] = pure-Keeps tt
  scan_models-Keeps p config (m ∷ ms) =
      then-Keeps (scan_with-Keeps p m (model_config_for config m)) (scan_models-Keeps p config ms)

  scan_all_models-Keeps :
      (p : IntParser) (config : AppConfig)
      → Keeps (InBound model c) (scan_all_models (on_documented env) p config)
  unfolding scan_all_models
  scan_all_models-Keeps p config =
      try_any-Keeps (scan_models-Keeps p config (all_model_names config.models))
        (record_redis_error-Keeps "lease_watcher_scan")

-- A pass of the lease watcher over all models leaves a model within its capacity, if it finds it so:
-- each job that it gives up only returns a slot. This holds whatever commands fail and whatever the
-- other clients do between two commands, if the server does as
-- documented and they keep the bound.
pub scan_all_models-InBound :
    (model : String) (c : ℤ) (env : Env) (p : IntParser) (config : AppConfig) (w : World)
    → IsRedis env.srv
    → OthersKeep (InBound model c) env
    → InBound model c w.keys
    → InBound model c (scan_all_models env p config w).1.keys
scan_all_models-InBound model c env p config w redis others h =
    subst (λ e. InBound model c (scan_all_models e p config w).1.keys) (env_path redis)
      ((scan_all_models-Keeps model c env others p config).run w h)

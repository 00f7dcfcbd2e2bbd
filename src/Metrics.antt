-- ===== src/Metrics.antt =====
-- app/observability/metrics.py: the wrappers that record an observation, each as the traces that it
-- leaves. Durations are in nanoseconds.
use talki_llm_admission_sche.Base.{ℕ, ◌+◌, [], ◌∷◌, String}
use talki_llm_admission_sche.Base.Int.{ℤ, pos}
use talki_llm_admission_sche.Redis.{counted, observed, gauged, M, trace, ◌>>◌}

unfoldable pub record_admission : String → String → M (Unit {0})
record_admission model result = trace (counted "admission_requests_total" (model ∷ result ∷ []))

unfoldable pub record_completion : String → ℕ → ℕ → ℕ → M (Unit {0})
record_completion model wait_s runtime_s backend_s = do
  trace (observed "queue_wait_seconds" (model ∷ []) (pos wait_s))
  trace (observed "request_duration_seconds" (model ∷ []) (pos (wait_s + runtime_s)))
  trace (observed "backend_duration_seconds" (model ∷ []) (pos backend_s))

unfoldable pub record_failure : String → String → M (Unit {0})
record_failure model error_class = trace (counted "failure_total" (model ∷ error_class ∷ []))

unfoldable pub record_timeout : String → String → M (Unit {0})
record_timeout model stage = trace (counted "timeout_total" (model ∷ stage ∷ []))

unfoldable pub record_cancel : String → M (Unit {0})
record_cancel model = trace (counted "cancel_total" (model ∷ []))

unfoldable pub record_worker_crash : String → M (Unit {0})
record_worker_crash model = trace (counted "worker_crash_total" (model ∷ []))

unfoldable pub record_redis_error : String → M (Unit {0})
record_redis_error operation = trace (counted "redis_errors_total" (operation ∷ []))

unfoldable pub update_slot_gauges : String → ℤ → ℤ → M (Unit {0})
update_slot_gauges model in_use capacity = do
  trace (gauged "slots_in_use" (model ∷ []) in_use)
  trace (gauged "slots_capacity" (model ∷ []) capacity)

unfoldable pub update_queue_depth : String → ℤ → M (Unit {0})
update_queue_depth model depth = trace (gauged "queue_depth" (model ∷ []) depth)

unfoldable pub update_dlq_depth : String → ℤ → M (Unit {0})
update_dlq_depth model depth = trace (gauged "dlq_depth" (model ∷ []) depth)

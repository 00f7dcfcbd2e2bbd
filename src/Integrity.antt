-- ===== src/Integrity.antt =====
-- app/core/integrity.py: IntegrityChecker, which sets a slot counter that has drifted up back to the
-- number of jobs in flight. The two reads of `asyncio.gather` are two commands in a row, between
-- which other clients may act. The task's own sleep and its start and stop are not modelled.
use talki_llm_admission_sche.Base.{Bool, true, false, Option, none, some, List, [], ◌∷◌, String, ℕ}
use talki_llm_admission_sche.Base.Int.{ℤ, pos, ◌+ℤ◌, ltb_ℤ}
use talki_llm_admission_sche.Config.{AppConfig, ModelConfig, model_config_for, all_model_names}
use talki_llm_admission_sche.Keys.{queue, inflight, slots_in_use}
use talki_llm_admission_sche.Redis.{
  Env, M, raise, validation_error, pure, ◌>>=◌, ◌>>◌, try_redis, try_any, execute, trace, logged,
  zcard, get_number, set_number, text, number, get_or,
}
use talki_llm_admission_sche.Python.{counting_errors}
use talki_llm_admission_sche.Metrics.{record_redis_error, update_slot_gauges, update_queue_depth}

unfoldable pub gauge_slots : String → ℤ → Option ModelConfig → M (Unit {0})
unfolding update_slot_gauges
gauge_slots model actual none = raise validation_error
gauge_slots model actual (some model_cfg) =
    update_slot_gauges model actual model_cfg.max_concurrency

-- The gauges, which every check ends with.
unfoldable pub update_gauges : Env → AppConfig → String → ℤ → M (Unit {0})
unfolding gauge_slots update_queue_depth
update_gauges env config model actual = do
  gauge_slots model actual (model_config_for config model)
  try_redis (execute env (zcard (queue model)) >>= λ depth. update_queue_depth model (pos depth))
      (pure tt)

unfoldable pub after_reset : Env → AppConfig → String → ℤ → ℤ → Option (Unit {0}) → M (Unit {0})
unfolding record_redis_error update_gauges
after_reset env config model actual recorded none = pure tt
after_reset env config model actual recorded (some _) = do
  record_redis_error "drift_correction"
  trace (
      logged (
        ("event", text "slot_drift_corrected")
        ∷ ("model", text model)
        ∷ ("recorded", number recorded)
        ∷ ("actual", number actual)
        ∷ []))
  update_gauges env config model actual

unfoldable pub reconcile : Env → AppConfig → String → ℤ → ℤ → Bool → M (Unit {0})
unfolding counting_errors after_reset update_gauges
reconcile env config model actual recorded true = do
  written ← counting_errors "integrity_write" (execute env (set_number (slots_in_use model) actual))
  after_reset env config model actual recorded written
reconcile env config model actual recorded false = update_gauges env config model actual

unfoldable pub with_counts : Env → AppConfig → String → Option (ℕ × Option ℤ) → M (Unit {0})
unfolding reconcile
with_counts env config model none = pure tt
with_counts env config model (some (actual, recorded)) =
    reconcile env config model (pos actual) (get_or (pos 0) recorded)
      (ltb_ℤ (pos actual +ℤ pos 2) (get_or (pos 0) recorded))

-- `_check_model`
unfoldable pub check_model : Env → AppConfig → String → M (Unit {0})
unfolding counting_errors with_counts
check_model env config model = do
  counts ← counting_errors "integrity_read" (do
    actual ← execute env (zcard (inflight model))
    recorded ← execute env (get_number (slots_in_use model))
    pure (actual, recorded))
  with_counts env config model counts

unfoldable pub check_models : Env → AppConfig → List String → M (Unit {0})
unfolding check_model
check_models env config [] = pure tt
check_models env config (model ∷ models) = do
  check_model env config model
  check_models env config models

-- `_check_all_models`, under the handler of `_run`.
unfoldable pub check_all_models : Env → AppConfig → M (Unit {0})
unfolding check_models record_redis_error
check_all_models env config =
    try_any (check_models env config (all_model_names config.models))
      (record_redis_error "integrity_check")

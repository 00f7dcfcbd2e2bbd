-- ===== src/Startup.antt =====
-- app/main.py: what the start of the application writes to Redis, the capacity of each model and a
-- counter of slots in use where there is none. The resources that it opens and the tasks that it
-- starts are not modelled.
pub mod Bound
use talki_llm_admission_sche.Base.{List, [], ◌∷◌, String}
use talki_llm_admission_sche.Base.Int.{ℤ, pos}
use talki_llm_admission_sche.Config.{ModelConfig}
use talki_llm_admission_sche.Keys.{slots_in_use, slots_capacity}
use talki_llm_admission_sche.Redis.{Env, M, pure, ◌>>=◌, ◌>>◌, execute, set_number, setnx}
use talki_llm_admission_sche.Metrics.{update_slot_gauges}

-- The loop over `config.models`.
unfoldable pub start_slots : Env → List (String × ModelConfig) → M (Unit {0})
unfolding update_slot_gauges
start_slots env [] = pure tt
start_slots env ((model_name, model_cfg) ∷ models) = do
  execute env (set_number (slots_capacity model_name) model_cfg.max_concurrency)
  execute env (setnx (slots_in_use model_name) (pos 0))
  update_slot_gauges model_name (pos 0) model_cfg.max_concurrency
  start_slots env models

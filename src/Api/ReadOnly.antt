-- ===== src/Api/ReadOnly.antt =====
-- The routes that only read.
use mathlib.Core.Path.{subst}
use talki_llm_admission_sche.Base.{String, List, [], ◌∷◌, Option, none, some}
use talki_llm_admission_sche.Base.Int.{ℤ}
use talki_llm_admission_sche.Config.{AppConfig, ModelConfig, model_config_for, all_model_names}
use talki_llm_admission_sche.Redis.{Env, IsRedis, Keyspace, World, validation_error}
use talki_llm_admission_sche.Redis.Keeps.{
  Keeps, OthersKeep, on_documented, env_path, keeps, bind-Keeps, pure-Keeps, raise-Keeps,
}
use talki_llm_admission_sche.Admission.{config_or_raise}
use talki_llm_admission_sche.Api.Jobs.{Readers}
use talki_llm_admission_sche.Api.Status.{oldest_ms, read_snapshot, snapshot, snapshots, get_queues}

module _ (P : Keyspace → Type 0) (env : Env) (others : OthersKeep P env) where
  same : (s : Keyspace) → P s → P s
  same s h = h

  oldest_ms-Keeps :
      (rd : Readers) (o : Option (ℤ × String)) → Keeps P (oldest_ms (on_documented env) rd o)
  unfolding oldest_ms
  oldest_ms-Keeps rd none = pure-Keeps none
  oldest_ms-Keeps rd (some (score, job_id)) = search (keeps, same) depth 10

  read_snapshot-Keeps :
      (rd : Readers) (m : String) (c : ModelConfig)
      → Keeps P (read_snapshot (on_documented env) rd m c)
  unfolding read_snapshot
  read_snapshot-Keeps rd m c = search (keeps, same, oldest_ms-Keeps) depth 12

  snapshot-Keeps :
      (rd : Readers) (m : String) (c : ModelConfig) → Keeps P (snapshot (on_documented env) rd m c)
  unfolding snapshot
  snapshot-Keeps rd m c = search (keeps, read_snapshot-Keeps) depth 10

  config-Keeps : (o : Option ModelConfig) → Keeps P (config_or_raise o)
  unfolding config_or_raise
  config-Keeps none = raise-Keeps validation_error
  config-Keeps (some c) = pure-Keeps c

  snapshots-Keeps :
      (rd : Readers) (config : AppConfig) (ms : List String)
      → Keeps P (snapshots (on_documented env) rd config ms)
  unfolding snapshots
  snapshots-Keeps rd config [] = pure-Keeps []
  snapshots-Keeps rd config (m ∷ ms) = bind-Keeps (config-Keeps (model_config_for config m)) λ c.
      bind-Keeps (snapshot-Keeps rd m c)
        λ s. bind-Keeps (snapshots-Keeps rd config ms) λ rest. pure-Keeps ((m, s) ∷ rest)

-- GET /queues only reads: whatever is true of the data in Redis stays so, if the other clients leave
-- it so, whatever commands fail. The server does as documented.
pub get_queues-Keeps :
    (P : Keyspace → Type 0) (env : Env) (rd : Readers) (config : AppConfig) (w : World)
    → IsRedis env.srv
    → OthersKeep P env
    → P w.keys
    → P (get_queues env rd config w).1.keys
unfolding get_queues
get_queues-Keeps P env rd config w redis others h =
    subst (λ e. P (snapshots e rd config (all_model_names config.models) w).1.keys)
      (env_path {env = env} redis)
      ((snapshots-Keeps P env others rd config (all_model_names config.models)).run w h)

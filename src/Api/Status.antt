-- ===== src/Api/Status.antt =====
-- What the service says of itself: GET /queues and GET /health.
use talki_llm_admission_sche.Base.{
  ℕ, ◌||◌, Bool, false, not, Option, none, some, List, [], ◌∷◌, String, str_eq, if◌then◌else◌,
}
use talki_llm_admission_sche.Base.Int.{ℤ, pos, ◌-ℤ◌}
use talki_llm_admission_sche.Config.{AppConfig, ModelConfig, model_config_for, all_model_names}
use talki_llm_admission_sche.Keys.{job, queue, slots_in_use}
use talki_llm_admission_sche.Redis.{
  Env, M, pure, ◌>>=◌, ◌>>◌, try_redis, execute, time_ns, zcard, get_number, zfirst, hget, get_or,
}
use talki_llm_admission_sche.Metrics.{record_redis_error}
use talki_llm_admission_sche.Admission.{config_or_raise}
use talki_llm_admission_sche.LeaseWatcher.{millis_ℤ}
use talki_llm_admission_sche.Api.Jobs.{Readers}

pub record ModelQueueSnapshot : Type 0 where
  pub depth : ℕ
  pub in_use : ℤ
  pub capacity : ℤ
  pub oldest_enqueue_ms : Option ℤ

-- The age of a job by its timestamp, in milliseconds; a timestamp that is missing or that cannot be
-- read is passed over.
unfoldable pub age_ms : Readers → ℕ → String → Option ℤ
age_ms rd now et_str =
    if str_eq et_str ""
    then none
    else elim (rd.parse_iso et_str) [ none ↦ none | some et ↦ some (millis_ℤ (pos now -ℤ pos et)) ]

-- The age of the first job of a queue.
unfoldable pub oldest_ms : Env → Readers → Option (ℤ × String) → M (Option ℤ)
unfolding age_ms
oldest_ms env rd none = pure none
oldest_ms env rd (some (score, job_id)) = do
  et_raw ← execute env (hget (job job_id) "enqueue_ts")
  now ← time_ns env
  pure (age_ms rd now (get_or "" et_raw))

unfoldable pub read_snapshot : Env → Readers → String → ModelConfig → M ModelQueueSnapshot
unfolding oldest_ms
read_snapshot env rd model model_cfg = do
  depth ← execute env (zcard (queue model))
  in_use ← execute env (get_number (slots_in_use model))
  oldest_members ← execute env (zfirst (queue model))
  oldest ← oldest_ms env rd oldest_members
  pure (record {
    depth = depth;
    in_use = get_or (pos 0) in_use;
    capacity = model_cfg.max_concurrency;
    oldest_enqueue_ms = oldest;
  })

-- The snapshot of one model, which is empty if a command fails.
unfoldable pub snapshot : Env → Readers → String → ModelConfig → M ModelQueueSnapshot
unfolding read_snapshot record_redis_error
snapshot env rd model model_cfg = try_redis (read_snapshot env rd model model_cfg) (
    record_redis_error "get_queues"
    >> pure (record {
      depth = 0;
      in_use = pos 0;
      capacity = model_cfg.max_concurrency;
      oldest_enqueue_ms = none;
    }))

unfoldable pub snapshots :
    Env → Readers → AppConfig → List String → M (List (String × ModelQueueSnapshot))
unfolding snapshot config_or_raise
snapshots env rd config [] = pure []
snapshots env rd config (model ∷ models) = do
  model_cfg ← config_or_raise (model_config_for config model)
  s ← snapshot env rd model model_cfg
  rest ← snapshots env rd config models
  pure ((model, s) ∷ rest)

-- GET /queues
unfoldable pub get_queues : Env → Readers → AppConfig → M (List (String × ModelQueueSnapshot))
unfolding snapshots
get_queues env rd config = snapshots env rd config (all_model_names config.models)

-- `any(ws.alive for ws in worker_statuses.values())`
unfoldable pub any_alive : List (String × Bool) → Bool
any_alive [] = false
any_alive ((model, alive) ∷ workers) = alive || any_alive workers

pub record HealthResponse : Type 0 where
  pub status : String
  pub redis : String
  pub litellm : String
  pub workers : List (String × Bool)

abbrev overall : Bool → String → List (String × Bool) → String
overall redis_ok litellm workers =
    if not redis_ok || not (any_alive workers)
    then "down"
    else (if str_eq litellm "ok" then "ok" else "degraded")

-- GET /health, by whether the server answers PING, what the forwarder says of LiteLLM and which
-- workers are alive: the status code and the body.
unfoldable pub health : Bool → String → List (String × Bool) → ℕ × HealthResponse
unfolding any_alive
health redis_ok litellm workers = (
  (if str_eq (overall redis_ok litellm workers) "down" then 503 else 200),
  record {
    status = overall redis_ok litellm workers;
    redis = if redis_ok then "ok" else "down";
    litellm = litellm;
    workers = workers;
  },
)

-- ===== src/Tests/Data.antt =====
-- A configuration, a submission and the data that the tests use.
use talki_llm_admission_sche.Base.{ℕ, false, none, some, [], ◌∷◌, String, ◌+◌}
use talki_llm_admission_sche.Base.Int.{pos}
use talki_llm_admission_sche.Config.{ModelConfig, AppConfig}
use talki_llm_admission_sche.Keys.{slots_in_use, slots_capacity, queue, idem, update}
use talki_llm_admission_sche.Redis.{Keyspace, World}
use talki_llm_admission_sche.Admission.{Submission}

abbrev pub code_config : ModelConfig
code_config = record {
  max_concurrency = pos 2;
  max_queue_depth = pos 2;
  max_wait_seconds = pos 180;
  sync_timeout_seconds = pos 300;
  priority = pos 3;
  fallback_policy = record { enabled = false; trigger_on = []; chain = [] };
}

abbrev pub config : AppConfig
config = record {
  scheduler = record {
    worker_poll_timeout_seconds = pos 5;
    lease_watcher_interval_seconds = pos 10;
    integrity_check_interval_seconds = pos 60;
  };
  defaults = code_config;
  models = ("code", code_config) ∷ [];
}

abbrev pub submission : Submission
submission = record {
  model = "code";
  payload = "{}";
  priority = none;
  caller = "dev-agent";
  caller_metadata = none;
  idempotency_key = some "k1";
  request_id = "r1";
  job_id = "j1";
}

abbrev pub no_keys : Keyspace
no_keys = record {
  counters = λ _. none;
  strings = λ _. none;
  hashes = λ _. [];
  zsets = λ _. [];
  sets = λ _. [];
  expires = λ _. none;
  published = [];
}

-- One of the two slots of `code` is in use.
abbrev pub booted : Keyspace
booted = record no_keys {
  counters =
      update (update (λ _. none) (slots_capacity "code") (some (pos 2))) (slots_in_use "code")
        (some (pos 1));
}

-- Both slots are in use.
abbrev pub full : Keyspace
full = record booted { counters = update booted.counters (slots_in_use "code") (some (pos 2)) }

-- Two jobs are queued.
abbrev pub crowded : Keyspace
crowded = record booted {
  zsets = update (λ _. []) (queue "code") ((pos 5, "a") ∷ (pos 6, "b") ∷ []);
}

-- The key of the submission is recorded.
abbrev pub repeated : Keyspace
repeated = record booted { strings = update (λ _. none) (idem "#k1") (some "j0") }

abbrev pub world : Keyspace → World
world s = record { keys = s; step = 0; traces = [] }

abbrev pub iso : ℕ → String
iso n = "2026-05-26T09:12:03"

abbrev pub ns : ℕ → ℕ
ns n = 1779786723000000000 + n

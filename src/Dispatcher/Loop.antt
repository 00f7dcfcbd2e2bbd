-- ===== src/Dispatcher/Loop.antt =====
-- The claim of a slot, the forwarding of a job, and the loop over the queue.
use talki_llm_admission_sche.Base.{
  ℕ, zero, suc, ◌+◌, ◌-◌, Bool, true, false, Option, none, some, [], ◌∷◌, String, ◌==◌, leb,
  if◌then◌else◌,
}
use talki_llm_admission_sche.Base.Int.{ℤ, pos, pos_part, leb_ℤ}
use talki_llm_admission_sche.State.{JobStatus, ErrorClass}
use talki_llm_admission_sche.Config.{ModelConfig}
use talki_llm_admission_sche.Keys.{queue, job, lease, inflight, slots_in_use, slots_capacity}
use talki_llm_admission_sche.Redis.{
  Env, M, ok, cancelled_error, pure, raise, ◌>>=◌, ◌>>◌, try_redis, finally, execute, pipeline,
  iso_now, time_ns, trace, observed, setex, zadd, hgetall, bzpopmin, Fields, get_or,
}
use talki_llm_admission_sche.Redis.Hash
use talki_llm_admission_sche.Scripts.{evalsha_claim_slot}
use talki_llm_admission_sche.Python.{IntParser, int_or_5, or_text, counting_errors}
use talki_llm_admission_sche.Metrics.{record_redis_error}
use talki_llm_admission_sche.EventLog.{build_dispatched_event, emit}
use talki_llm_admission_sche.Dispatcher.Terminal.{
  Response, Job, release_slot, cleanup_slot, mark_completed, mark_failed, mark_cancelled, millis,
}

-- How `LiteLLMForwarder.forward` ends: with a response and its backend, or with an exception of httpx
-- or another one.
pub data Forwarded : Type 0 where
  responded : Response → Option String → Forwarded
  http_status_error : ℕ → String → Forwarded
  timeout_exception connect_error other_exception : String → Forwarded
  cancelled : Forwarded

-- A worker and its surroundings: whether its stop event is set when `n` commands have been sent, how
-- the backend answers a payload then, and what Python's `int`, `fromisoformat` and `json.loads` make
-- of a text.
pub record Worker : Type 0 where
  pub model : String
  pub model_cfg : ModelConfig
  pub worker_id : String
  pub stopped : ℕ → Bool
  pub forward : ℕ → String → Forwarded
  pub parse_int : IntParser
  pub parse_iso : String → Option ℕ
  pub is_json : String → Bool

-- `max(self._model_cfg.sync_timeout_seconds, 60) + 30`
unfoldable pub lease_ttl : ModelConfig → ℕ
lease_ttl c =
    (if leb_ℤ (pos 60) c.sync_timeout_seconds then pos_part c.sync_timeout_seconds else 60) + 30

-- `await self._lua.evalsha_claim_slot(…)`, with `none` for a RedisError.
unfoldable pub try_claim : Env → Worker → String → String → M (Option ℕ)
unfolding counting_errors
try_claim env wk job_id ts_iso =
    counting_errors "evalsha_claim_slot"
      (evalsha_claim_slot env (slots_in_use wk.model) (slots_capacity wk.model) job_id ts_iso)

abbrev pub is_claimed : Option ℕ → Bool
is_claimed none = false
is_claimed (some n) = n == 1

-- How the wait for a slot ends: with a slot, or because the worker is stopping. `waiting` is a wait
-- that has taken all the rounds that are looked at.
pub data Claim : Type 0 where
  claimed stopping waiting : Claim

abbrev pub is_stopped : Worker → M Bool
is_stopped wk w = (ok (wk.stopped w.step), w)

-- The `while not self._stop.is_set()` loop of _wait_for_slot_and_claim.
unfoldable pub claim_loop : ℕ → Env → Worker → String → M Claim
unfolding try_claim
claim_loop zero env wk job_id = pure waiting
claim_loop (suc rounds) env wk job_id = do
  stop ← is_stopped wk
  elim stop [
    | true ↦ pure stopping
    | false ↦ (do
      ts_iso ← iso_now env
      answer ← try_claim env wk job_id ts_iso
      elim (is_claimed answer) [ true ↦ pure claimed | false ↦ claim_loop rounds env wk job_id ])
  ]

-- `_field(key)`
abbrev pub field : String → Fields → String
field key job_hash = get_or "" (Hash.get key job_hash)

abbrev pub payload_of : Worker → Fields → String
payload_of wk job_hash =
    let stored = or_text (field "payload_json" job_hash) "{}" in
    if wk.is_json stored then stored else "{}"

-- `if status_code == 429: …`
unfoldable pub status_error_class : ℕ → ErrorClass
status_error_class status_code =
    if status_code == 429
    then ErrorClass.backend_429
    else if leb 500 status_code
    then ErrorClass.backend_5xx
    else ErrorClass.backend_5xx

-- The `try` around the forwarding, by how it ended.
unfoldable pub settle : Env → Job → ℕ → ℕ → Forwarded → M (Unit {0})
unfolding status_error_class mark_completed mark_failed mark_cancelled
settle env j wait_s backend_start (responded response target) = do
  now ← time_ns env
  mark_completed env j response wait_s (now - backend_start) target
settle env j wait_s backend_start (http_status_error code message) =
    mark_failed env j (status_error_class code) message (some code)
settle env j wait_s backend_start (timeout_exception message) =
    mark_failed env j ErrorClass.backend_timeout message none
settle env j wait_s backend_start (connect_error message) =
    mark_failed env j ErrorClass.network_error message none
settle env j wait_s backend_start (other_exception message) =
    mark_failed env j ErrorClass.backend_5xx message none
settle env j wait_s backend_start cancelled = mark_cancelled env j >> raise cancelled_error

abbrev pub read_forward : Worker → String → M Forwarded
read_forward wk payload w = (ok (wk.forward w.step payload), w)

-- From the payload to the end of the `try`, with its `finally`.
unfoldable pub forward_job : Env → Worker → Job → ℕ → String → M (Unit {0})
unfolding settle release_slot
forward_job env wk j wait_s payload = do
  backend_start ← time_ns env
  finally (do forwarded ← read_forward wk payload; settle env j wait_s backend_start forwarded)
      (release_slot env wk.model j.job_id)

-- What follows a job hash that is not empty.
unfoldable pub run_job : Env → Worker → String → Fields → M (Unit {0})
unfolding emit build_dispatched_event forward_job
run_job env wk job_id job_hash = do
  priority ← int_or_5 wk.parse_int (field "priority" job_hash)
  now ← time_ns env
  let model = or_text (field "model" job_hash) wk.model
  let wait_s = now - get_or now (wk.parse_iso (field "enqueue_ts" job_hash))
  let caller = field "caller" job_hash
  let request_id = field "request_id" job_hash
  emit env (λ ts.
      build_dispatched_event ts job_id request_id model caller "{}" priority (millis wait_s) none)
  trace (observed "queue_wait_seconds" (model ∷ []) (pos wait_s))
  forward_job env wk
      (record {
        job_id = job_id;
        request_id = request_id;
        model = model;
        caller = caller;
        priority = priority;
      })
      wait_s (payload_of wk job_hash)

-- By the answer to HGETALL: `none` for a RedisError. An empty hash is _cleanup_slot_minimal.
unfoldable pub with_hash : Env → Worker → String → Option Fields → M (Unit {0})
unfolding cleanup_slot release_slot run_job
with_hash env wk job_id none =
    cleanup_slot env wk.model job_id JobStatus.failed ErrorClass.worker_crash
with_hash env wk job_id (some []) = release_slot env wk.model job_id
with_hash env wk job_id (some (f ∷ job_hash)) = run_job env wk job_id (f ∷ job_hash)

-- What follows a claim.
unfoldable pub dispatch : Env → Worker → String → M (Unit {0})
unfolding counting_errors record_redis_error with_hash lease_ttl
dispatch env wk job_id = do
  now ← time_ns env
  try_redis
      (pipeline env (
        setex (lease job_id) (lease_ttl wk.model_cfg) wk.worker_id
        ∷ zadd (inflight wk.model) (pos now) job_id
        ∷ []))
      (record_redis_error "lease_set")
  job_hash ← counting_errors "job_hgetall" (execute env (hgetall (job job_id)))
  with_hash env wk job_id job_hash

unfoldable pub after_claim : Env → Worker → String → Claim → M (Unit {0})
unfolding dispatch
after_claim env wk job_id claimed = dispatch env wk job_id
after_claim env wk job_id stopping = pure tt
after_claim env wk job_id waiting = pure tt

-- `_wait_for_slot_and_claim`
unfoldable pub wait_for_slot_and_claim : ℕ → Env → Worker → String → M (Unit {0})
unfolding claim_loop after_claim
wait_for_slot_and_claim rounds env wk job_id =
    claim_loop rounds env wk job_id >>= after_claim env wk job_id

unfoldable pub serve_item : ℕ → Env → Worker → Option (ℤ × String) → M (Unit {0})
unfolding wait_for_slot_and_claim
serve_item rounds env wk none = pure tt
serve_item rounds env wk (some (score, job_id)) = wait_for_slot_and_claim rounds env wk job_id

-- One round of the loop of `run`.
unfoldable pub run_once : ℕ → Env → Worker → M (Unit {0})
unfolding counting_errors serve_item
run_once rounds env wk = do
  item ← counting_errors "bzpopmin" (execute env (bzpopmin (queue wk.model)))
  serve_item rounds env wk (get_or none item)

-- `run`: the rounds until the stop event is set, or as many as are looked at.
unfoldable pub run : ℕ → ℕ → Env → Worker → M (Unit {0})
unfolding run_once
run zero rounds env wk = pure tt
run (suc n) rounds env wk = do
  stop ← is_stopped wk
  elim stop [ true ↦ pure tt | false ↦ (do run_once rounds env wk; run n rounds env wk) ]

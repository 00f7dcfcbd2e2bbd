-- ===== src/Api/Jobs.antt =====
-- The status of a job and its cancellation. An HTTP answer is a value, and an HTTPException an error.
use talki_llm_admission_sche.Base.{
  ℕ, ◌==◌, ◌-◌, ◌/◌, ◌||◌, Bool, true, false, Option, none, some, [], ◌∷◌, String, str_eq,
  if◌then◌else◌,
}
use talki_llm_admission_sche.Base.Int.{ℤ, pos, negsuc}
use talki_llm_admission_sche.State.{JobStatus, status_value}
use talki_llm_admission_sche.Keys.{job, queue}
use talki_llm_admission_sche.Redis.{
  Env, M, http_exception, pure, raise, ◌>>=◌, ◌>>◌, execute, iso_now, hset, hget, hgetall, expire,
  publish, ttl, Fields, get_or,
}
use talki_llm_admission_sche.Redis.Hash
use talki_llm_admission_sche.Scripts.{evalsha_cancel_queued}
use talki_llm_admission_sche.Python.{IntParser, int_of, int_or_5, or_text}
use talki_llm_admission_sche.Metrics.{record_cancel}

-- `status in terminal`
abbrev pub is_terminal : String → Bool
is_terminal status =
    str_eq status (status_value JobStatus.completed)
    || str_eq status (status_value JobStatus.failed)
    || str_eq status (status_value JobStatus.cancelled)
    || str_eq status (status_value JobStatus.timeout)
    || str_eq status (status_value JobStatus.rejected)

-- `_f(key) or "unknown"`
abbrev pub known_field : String → Fields → String
known_field key fields = or_text (get_or "" (Hash.get key fields)) "unknown"

pub record CancelResponse : Type 0 where
  pub job_id : String
  pub status : String

-- What follows a withdrawal from the queue.
unfoldable pub cancelled_now : Env → String → String → M CancelResponse
unfolding record_cancel
cancelled_now env job_id model = do
  execute env (expire (job job_id) 3600)
  execute env (publish job_id (status_value JobStatus.cancelled))
  record_cancel model
  pure (record { job_id = job_id; status = status_value JobStatus.cancelled })

-- A job that is not in the queue any more.
unfoldable pub mark_cancelling : Env → String → M CancelResponse
mark_cancelling env job_id = do
  execute env (hset (job job_id) (("status", status_value JobStatus.cancelling) ∷ []))
  pure (record { job_id = job_id; status = status_value JobStatus.cancelling })

unfoldable pub after_cancel : Env → String → String → ℕ → M CancelResponse
unfolding cancelled_now mark_cancelling
after_cancel env job_id model removed = elim (removed == 1) [
  | true ↦ cancelled_now env job_id model
  | false ↦ mark_cancelling env job_id
]

unfoldable pub withdraw : Env → String → String → M CancelResponse
unfolding after_cancel
withdraw env job_id model = do
  cancel_ts ← iso_now env
  removed ← evalsha_cancel_queued env (queue model) (job job_id) job_id cancel_ts
  after_cancel env job_id model removed

unfoldable pub cancel_found : Env → String → String → String → M CancelResponse
unfolding withdraw mark_cancelling
cancel_found env job_id status model = elim (is_terminal status) [
  | true ↦ pure (record { job_id = job_id; status = status })
  | false ↦ elim (str_eq status (status_value JobStatus.queued)) [
    | true ↦ withdraw env job_id model
    | false ↦ mark_cancelling env job_id
  ]
]

unfoldable pub cancel_data : Env → String → Fields → M CancelResponse
unfolding cancel_found
cancel_data env job_id [] = raise (http_exception 404 "Job not found")
cancel_data env job_id (f ∷ fields) =
    cancel_found env job_id (known_field "status" (f ∷ fields)) (known_field "model" (f ∷ fields))

unfoldable pub cancel_job : Env → String → M CancelResponse
unfolding cancel_data
cancel_job env job_id = do
  data_map ← execute env (hgetall (job job_id))
  cancel_data env job_id data_map

-- What Python's libraries make of a text: `int`, `fromisoformat` with `timestamp` in nanoseconds,
-- and `json.loads(gzip.decompress(raw))`.
pub record Readers : Type 0 where
  pub parse_int : IntParser
  pub parse_iso : String → Option ℕ
  pub unzip : String → Option String

pub record JobStatusResponse : Type 0 where
  pub job_id : String
  pub status : String
  pub model : Option String
  pub priority : ℤ
  pub enqueue_ts : Option String
  pub dispatch_ts : Option String
  pub complete_ts : Option String
  pub wait_ms : Option ℕ
  pub runtime_ms : Option ℕ
  pub error_class : Option String
  pub error_message : Option String
  pub http_status : Option ℤ
  pub result : Option String

-- `_load_response_blob`
unfoldable pub load_response_blob : Env → Readers → String → M (Option String)
load_response_blob env rd job_id = do
  raw ← execute env (hget (job job_id) "response_blob")
  pure (elim raw [ none ↦ none | some text ↦ rd.unzip text ])

-- The milliseconds between two timestamps, and nothing without them; `none` is an exception.
between_parsed : Option ℕ → Option ℕ → Option (Option ℕ)
between_parsed (some a) (some b) = some (some ((b - a) / 1000000))
between_parsed _ _ = none

unfoldable pub span_ms : Readers → String → String → Option (Option ℕ)
unfolding between_parsed
span_ms rd a b =
    if str_eq a "" || str_eq b ""
    then some none
    else between_parsed (rd.parse_iso a) (rd.parse_iso b)

-- wait_ms and runtime_ms: an exception leaves what is set so far.
unfoldable pub times_ms : Readers → String → String → String → Option ℕ × Option ℕ
unfolding span_ms
times_ms rd enqueue_ts dispatch_ts complete_ts = elim (span_ms rd enqueue_ts dispatch_ts) [
  | none ↦ (none, none)
  | some wait_ms ↦ (wait_ms, get_or none (span_ms rd dispatch_ts complete_ts))
]

-- `int(text) if text else None`
abbrev pub int_or_none : IntParser → String → M (Option ℤ)
int_or_none parse_int text =
    if str_eq text "" then pure none else (int_of (parse_int text) >>= λ n. pure (some n))

abbrev text_at : String → Fields → String
text_at key fields = get_or "" (Hash.get key fields)

unfoldable pub job_times : Readers → Fields → Option ℕ × Option ℕ
unfolding times_ms
job_times rd fields =
    times_ms rd (text_at "enqueue_ts" fields) (text_at "dispatch_ts" fields)
      (text_at "complete_ts" fields)

unfoldable pub job_view : Readers → String → String → Fields → Option String → M JobStatusResponse
unfolding job_times
job_view rd job_id status data_map result_blob = do
  priority ← int_or_5 rd.parse_int (text_at "priority" data_map)
  http_status ← int_or_none rd.parse_int (text_at "http_status" data_map)
  pure (record {
    job_id = job_id;
    status = status;
    model = Hash.get "model" data_map;
    priority = priority;
    enqueue_ts = Hash.get "enqueue_ts" data_map;
    dispatch_ts = Hash.get "dispatch_ts" data_map;
    complete_ts = Hash.get "complete_ts" data_map;
    wait_ms = (job_times rd data_map).0;
    runtime_ms = (job_times rd data_map).1;
    error_class = Hash.get "error_class" data_map;
    error_message = Hash.get "error_message" data_map;
    http_status = http_status;
    result = result_blob;
  })

-- TTL answers -2 for a key that is gone.
abbrev is_gone : ℤ → Bool
is_gone (pos n) = false
is_gone (negsuc n) = n == 1

unfoldable pub job_living : Env → Readers → String → Fields → ℤ → M JobStatusResponse
unfolding job_view load_response_blob
job_living env rd job_id fields left =
    let status = known_field "status" fields in
    if is_gone left
    then raise (http_exception 410 "Job result expired")
    else ((if str_eq status (status_value JobStatus.completed)
          then load_response_blob env rd job_id
          else pure none)
        >>= λ result_blob. job_view rd job_id status fields result_blob)

unfoldable pub job_found : Env → Readers → String → Fields → M JobStatusResponse
unfolding job_living
job_found env rd job_id [] = raise (http_exception 404 "Job not found")
job_found env rd job_id (f ∷ fields) = do
  left ← execute env (ttl (job job_id))
  job_living env rd job_id (f ∷ fields) left

unfoldable pub get_job : Env → Readers → String → M JobStatusResponse
unfolding job_found
get_job env rd job_id = do
  data_map ← execute env (hgetall (job job_id))
  job_found env rd job_id data_map

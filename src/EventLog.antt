-- ===== src/EventLog.antt =====
-- app/observability/jsonl_logger.py: the events, and `emit` as the service sees it: an event counts as
-- emitted when it is handed over. The queue and the writer are in the children.
pub mod Writer
pub mod Delivery
pub mod Turns
use talki_llm_admission_sche.Base.{Option, none, some, List, [], ◌∷◌, ◌++◌, String}
use talki_llm_admission_sche.Base.Int.{ℤ}
use talki_llm_admission_sche.Redis.{
  Value, text, number, null, Env, M, trace, logged, iso_now, ◌>>=◌,
}

abbrev pub Event : Type 0
Event = List (String × Value)

abbrev pub text_or_null : Option String → Value
text_or_null none = null
text_or_null (some s) = text s

unfoldable pub build_base_event :
    (ts event job_id request_id model caller caller_metadata : String) → ℤ → Event
build_base_event ts event job_id request_id model caller caller_metadata priority =
    ("ts", text ts)
    ∷ ("request_id", text request_id)
    ∷ ("job_id", text job_id)
    ∷ ("model", text model)
    ∷ ("event", text event)
    ∷ ("caller", text caller)
    ∷ ("caller_metadata", text caller_metadata)
    ∷ ("priority", number priority)
    ∷ []

-- `kv_pressure_hint` is None at the one call.
unfoldable pub build_dispatched_event :
    (ts job_id request_id model caller caller_metadata : String) → ℤ → ℤ → Option String → Event
unfolding build_base_event
build_dispatched_event ts job_id request_id model caller caller_metadata priority wait_ms
      backend_target =
    build_base_event ts "dispatched" job_id request_id model caller caller_metadata priority
    ++ (("wait_ms", number wait_ms)
        ∷ ("backend_target", text_or_null backend_target)
        ∷ ("kv_pressure_hint", null)
        ∷ [])

unfoldable pub build_completed_event :
    (ts job_id request_id model caller caller_metadata : String)
    → ℤ
    → ℤ
    → ℤ
    → ℤ
    → ℤ
    → Option String
    → Event
unfolding build_base_event
build_completed_event ts job_id request_id model caller caller_metadata priority wait_ms runtime_ms
      tokens_prompt tokens_completion backend_target =
    build_base_event ts "completed" job_id request_id model caller caller_metadata priority
    ++ (("wait_ms", number wait_ms)
        ∷ ("runtime_ms", number runtime_ms)
        ∷ ("tokens_prompt", number tokens_prompt)
        ∷ ("tokens_completion", number tokens_completion)
        ∷ ("backend_target", text_or_null backend_target)
        ∷ [])

-- `emit` of an event that is built from the time of the call.
unfoldable pub emit : Env → (String → Event) → M (Unit {0})
emit env event = do ts ← iso_now env; trace (logged (event ts))

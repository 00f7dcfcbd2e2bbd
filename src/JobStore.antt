-- ===== src/JobStore.antt =====
-- app/storage/job_store.py: JobStore, the operations on a job's hash. The fields that are given by
-- keyword are texts, and the gzipped JSON text of a response is given by a function.
pub mod RoundTrip
use talki_llm_admission_sche.Base.{
  Bool, true, false, Option, none, some, List, [], ◌∷◌, String, str_eq, if◌then◌else◌,
}
use talki_llm_admission_sche.State.{JobStatus, status_value}
use talki_llm_admission_sche.Keys.{job}
use talki_llm_admission_sche.Redis.{
  Env, M, pure, ◌>>=◌, ◌>>◌, execute, pipeline, iso_now, hset, hget, hgetall, expire, exists,
  Fields, get_or,
}
use talki_llm_admission_sche.Redis.Hash

-- An empty hash is no job.
abbrev some_fields : Fields → Option Fields
some_fields [] = none
some_fields (f ∷ fields) = some (f ∷ fields)

unfoldable pub get_all : Env → String → M (Option Fields)
get_all env job_id = do fields ← execute env (hgetall (job job_id)); pure (some_fields fields)

unfoldable pub get_field : Env → String → String → M (Option String)
get_field env job_id name = execute env (hget (job job_id) name)

unfoldable pub set_fields : Env → String → Fields → M (Unit {0})
set_fields env job_id [] = pure tt
set_fields env job_id (f ∷ fields) = execute env (hset (job job_id) (f ∷ fields)) >>= λ _. pure tt

-- `complete_ts or _iso_now()`
abbrev given_or_now : Env → String → M String
given_or_now env complete_ts = elim (str_eq complete_ts "") [
  | true ↦ iso_now env
  | false ↦ pure complete_ts
]

unfoldable pub mark_terminal : Env → String → JobStatus → Option String → Fields → M (Unit {0})
mark_terminal env job_id status complete_ts extra_fields = do
  ts ← given_or_now env (get_or "" complete_ts)
  pipeline env (
      hset (job job_id)
        (Hash.put_all extra_fields (("status", status_value status) ∷ ("complete_ts", ts) ∷ []))
      ∷ expire (job job_id) 3600
      ∷ [])

unfoldable pub store_response_blob : Env → (String → String) → String → String → M (Unit {0})
store_response_blob env zip job_id response =
    execute env (hset (job job_id) (("response_blob", zip response) ∷ [])) >>= λ _. pure tt

-- `none` of `unzip` is an exception.
unfoldable pub load_stored_blob : Env → (String → Option String) → String → M (Option String)
load_stored_blob env unzip job_id = do
  raw ← execute env (hget (job job_id) "response_blob")
  pure (elim raw [ none ↦ none | some blob ↦ unzip blob ])

unfoldable pub job_exists : Env → String → M Bool
job_exists env job_id = execute env (exists (job job_id))

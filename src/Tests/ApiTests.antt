-- ===== src/Tests/ApiTests.antt =====
-- The routes and the job store at concrete inputs.
use talki_llm_admission_sche.Base.{◌≡◌, ◌*◌, refl, true, none, some, [], ◌∷◌, arith}
use talki_llm_admission_sche.Keys.{job, queue, update}
use talki_llm_admission_sche.Redis.{Env, Keyspace, documented, calm, ok}
use talki_llm_admission_sche.Redis.Zset
use talki_llm_admission_sche.Api.Jobs.{cancel_job, Readers}
use talki_llm_admission_sche.Api.Completion.{Listener, wait_loop}
use talki_llm_admission_sche.Api.Laws.{cancel_waiting, after_waiting, new_status}
use talki_llm_admission_sche.Api.Status.{get_queues}
use talki_llm_admission_sche.Api.ReadOnly.{get_queues-Keeps}
use talki_llm_admission_sche.Api.Waiting.{is_over, wait_loop_ends}
use talki_llm_admission_sche.JobStore.{store_response_blob, load_stored_blob}
use talki_llm_admission_sche.JobStore.RoundTrip.{load_stored_blob-store_response_blob}
use talki_llm_admission_sche.Tests.Data.{config, crowded, world, iso, ns}

-- The job `a` is queued, and `b` has failed.
abbrev with_jobs : Keyspace
with_jobs = record crowded {
  hashes =
      update (update (λ _. []) (job "a") (("model", "code") ∷ ("status", "queued") ∷ [])) (job "b")
        (("model", "code") ∷ ("status", "failed") ∷ []);
}

abbrev quiet : Env
quiet = calm documented iso ns (λ s. s)

cancel_waiting_example :
    let (o, w') = cancel_job quiet "a" (world with_jobs) in
    let queued = Zset.has "a" (with_jobs.zsets (queue "code")) in
    (o ≡ ok (record { job_id = "a"; status = new_status documented iso ns (λ s. s) queued }))
    × (w'.keys ≡ after_waiting documented iso ns (λ s. s) "a" "code" (world with_jobs) queued)
cancel_waiting_example =
    cancel_waiting documented iso ns (λ s. s) "a" "code" (world with_jobs) (λ _ _. refl) refl refl
      refl

-- No message comes, and the clock goes a second forward with each command.
abbrev silence : Listener
silence = record {
  subscribe = λ _. ok tt;
  get_message = λ _. ok none;
  monotonic = λ n. n * 1000000000;
}

wait_loop_ends_example :
    is_over (wait_loop 4 quiet silence "a" 3000000000 (world with_jobs)).0 ≡ true
wait_loop_ends_example =
    wait_loop_ends 4 3 quiet silence "a" 3000000000 (world with_jobs) (omega arith) refl

abbrev no_readers : Readers
no_readers = record { parse_int = λ _. none; parse_iso = λ _. none; unzip = λ _. none }

get_queues-Keeps_example :
    (get_queues quiet no_readers config (world with_jobs)).1.keys.zsets (queue "code")
    ≡ with_jobs.zsets (queue "code")
get_queues-Keeps_example =
    get_queues-Keeps (λ s. s.zsets (queue "code") ≡ with_jobs.zsets (queue "code")) quiet no_readers
      config (world with_jobs) (λ _ _. refl) (λ n s h. h) refl

load_stored_blob-store_response_blob_example :
    let (o, w') = store_response_blob quiet (λ s. s) "a" "{}" (world with_jobs) in
    (load_stored_blob quiet (λ s. some s) "a" w').0 ≡ ok (some "{}")
load_stored_blob-store_response_blob_example =
    load_stored_blob-store_response_blob documented iso ns (λ s. s) (λ s. s) (λ s. some s) "a" "{}"
      (world with_jobs) (λ _ _. refl) refl

-- ===== src/Slots/Requests.antt =====
-- The cancellation of jobs (app/api/routes.py) and the bound on slots.
use mathlib.Core.Path.{subst}
use talki_llm_admission_sche.Base.{ℕ, String, [], ◌∷◌, refl, Bool-cases, inl, inr, str_eq, ◌==◌}
use talki_llm_admission_sche.Base.Int.{ℤ}
use talki_llm_admission_sche.State.{JobStatus, status_value}
use talki_llm_admission_sche.Keys.{queue, job}
use talki_llm_admission_sche.Redis.{
  Env, IsRedis, World, Keyspace, Fields, documented, effect, expire, has_key, hgetall,
  http_exception,
}
use talki_llm_admission_sche.Redis.Keeps.{
  Keeps, OthersKeep, on_documented, env_path, keeps, evalsha-Keeps, bind-Keeps, pure-Keeps,
  execute-Keeps, iso_now-Keeps, branch-Keeps, raise-Keeps,
}
use talki_llm_admission_sche.Redis.Zset
use talki_llm_admission_sche.Scripts.{cancel_queued, evalsha_cancel_queued}
use talki_llm_admission_sche.Scripts.Atomic.{cancel, cancel_lem}
use talki_llm_admission_sche.Metrics.{record_cancel}
use talki_llm_admission_sche.Api.Jobs.{
  is_terminal, cancel_job, cancel_data, cancel_found, withdraw, after_cancel, cancelled_now,
  mark_cancelling, known_field,
}
use talki_llm_admission_sche.Slots.Bound.{InBound, unchanged-InBound}

module _ (model : String) (c : ℤ) (env : Env) (others : OthersKeep (InBound model c) env) where
  expire-InBound :
      (j : String) (s : Keyspace)
      → InBound model c s
      → InBound model c (effect (expire (job j) 3600) s)
  expire-InBound j s h = elim (Bool-cases (has_key (job j) s)) [ inl e ↦ rw e h | inr e ↦ rw e h ]

  cancel-InBound :
      (m j ts : String) (s : Keyspace)
      → InBound model c s
      → InBound model c (cancel documented m j ts s).1
  cancel-InBound m j ts s h =
      rw (cancel_lem documented m j ts s (λ _ _. refl))
        (elim (Bool-cases (Zset.has j (s.zsets (queue m)))) [ inl e ↦ rw e h | inr e ↦ rw e h ])

  cancelled_now-Keeps :
      (j m : String) → Keeps (InBound model c) (cancelled_now (on_documented env) j m)
  unfolding cancelled_now record_cancel
  cancelled_now-Keeps j m = search (keeps, expire-InBound j, unchanged-InBound model c) depth 10

  mark_cancelling-Keeps :
      (j : String) → Keeps (InBound model c) (mark_cancelling (on_documented env) j)
  unfolding mark_cancelling
  mark_cancelling-Keeps j = search (keeps, unchanged-InBound model c) depth 10

  after_cancel-Keeps :
      (j m : String) (n : ℕ) → Keeps (InBound model c) (after_cancel (on_documented env) j m n)
  unfolding after_cancel
  after_cancel-Keeps j m n =
      branch-Keeps (n == 1) (cancelled_now-Keeps j m) (mark_cancelling-Keeps j)

  withdraw-Keeps : (j m : String) → Keeps (InBound model c) (withdraw (on_documented env) j m)
  unfolding withdraw evalsha_cancel_queued
  withdraw-Keeps j m = bind-Keeps (iso_now-Keeps (on_documented env)) λ ts.
      bind-Keeps
        (evalsha-Keeps env (cancel_queued (queue m) (job j) j ts) others (cancel-InBound m j ts))
        (after_cancel-Keeps j m)

  cancel_found-Keeps :
      (j st m : String) → Keeps (InBound model c) (cancel_found (on_documented env) j st m)
  unfolding cancel_found
  cancel_found-Keeps j st m =
      branch-Keeps (is_terminal st) (pure-Keeps (record { job_id = j; status = st })) (
        branch-Keeps (str_eq st (status_value JobStatus.queued)) (withdraw-Keeps j m)
          (mark_cancelling-Keeps j))

  cancel_data-Keeps :
      (j : String) (fields : Fields)
      → Keeps (InBound model c) (cancel_data (on_documented env) j fields)
  unfolding cancel_data
  cancel_data-Keeps j [] = raise-Keeps (http_exception 404 "Job not found")
  cancel_data-Keeps j (f ∷ fields) =
      cancel_found-Keeps j (known_field "status" (f ∷ fields)) (known_field "model" (f ∷ fields))

  cancel_job-Keeps : (j : String) → Keeps (InBound model c) (cancel_job (on_documented env) j)
  unfolding cancel_job
  cancel_job-Keeps j =
      bind-Keeps (execute-Keeps env (hgetall (job j)) others (λ s h. h)) (cancel_data-Keeps j)

-- A cancellation leaves a model within its capacity, if it finds it so, whatever the job is: it never
-- returns or takes a slot. This holds whatever commands fail and whatever the other clients do between
-- two commands, if the server does as documented and the other clients keep the bound.
pub cancel_job-InBound :
    (model : String) (c : ℤ) (env : Env) (j : String) (w : World)
    → IsRedis env.srv
    → OthersKeep (InBound model c) env
    → InBound model c w.keys
    → InBound model c (cancel_job env j w).1.keys
cancel_job-InBound model c env j w redis others h =
    subst (λ e. InBound model c (cancel_job e j w).1.keys) (env_path redis)
      ((cancel_job-Keeps model c env others j).run w h)

-- ===== src/Api/Laws.antt =====
-- The cancellation of a job (app/api/routes.py), on its branches.

use mathlib.Core.Path.{subst}
use talki_llm_admission_sche.Base.{
  ℕ, suc, ◌≡◌, refl, ◌∙◌, Bool, true, false, some, [], ◌∷◌, String, str_eq, eq_iff, Bool-cases, inl,
  inr, arith, if◌then◌else◌,
}
use talki_llm_admission_sche.State.{JobStatus, status_value}
use talki_llm_admission_sche.Keys.{job, queue}
use talki_llm_admission_sche.Redis.{
  Env, World, Keyspace, Server, IsRedis, IsRedis-eq, ok, documented, calm, effect, hset, expire,
  publish, Fields, pure,
}
use talki_llm_admission_sche.Redis.Hash
use talki_llm_admission_sche.Redis.Zset
use talki_llm_admission_sche.Scripts.{evalsha_cancel_queued}
use talki_llm_admission_sche.Scripts.Atomic.{cancel, withdrawn, cancel_lem}
use talki_llm_admission_sche.Metrics.{record_cancel}
use talki_llm_admission_sche.Api.Jobs.{
  is_terminal, cancel_job, cancel_data, cancel_found, withdraw, after_cancel, cancelled_now,
  mark_cancelling, known_field,
}

module _ (srv : Server) (iso : ℕ → String) (ns : ℕ → ℕ) (sha : String → String) where
  empty_runs : {st : String} → st ≡ "" → is_terminal st ≡ true → ⊥
  empty_runs e h = ground (arith, subst (λ x. is_terminal x ≡ true) e h)

  cancel_known :
      (env : Env) (j st : String) (fields : Fields)
      → Hash.get "status" fields ≡ some st
      → cancel_data env j fields
        ≡ cancel_found env j (known_field "status" fields) (known_field "model" fields)
  unfolding cancel_data
  cancel_known env j st [] h = absurd (ground arith)
  cancel_known env j st (f ∷ fields) h = refl

  status_known :
      (st : String) (fields : Fields)
      → Hash.get "status" fields ≡ some st
      → is_terminal st ≡ true
      → known_field "status" fields ≡ st
  status_known st fields h ended = elim (Bool-cases (str_eq st "")) [
    | inl e ↦ absurd (empty_runs ((eq_iff st "").0 e) ended)
    | inr e ↦ rw (h, e) refl
  ]

  found_ended :
      (env : Env) (j st model : String)
      → is_terminal st ≡ true
      → cancel_found env j st model ≡ pure (record { job_id = j; status = st })
  unfolding cancel_found
  found_ended env j st model ended = rw (ended, cancel_found) refl

  ended_here :
      (j st : String) (w : World)
      → Hash.get "status" (w.keys.hashes (job j)) ≡ some st
      → is_terminal st ≡ true
      → let (o, w') = cancel_job (calm documented iso ns sha) j w in
        (o ≡ ok (record { job_id = j; status = st })) × (w'.keys ≡ w.keys)
  unfolding cancel_job
  ended_here j st w h ended =
      let fields = w.keys.hashes (job j) in
      rw (cancel_known (calm documented iso ns sha) j st fields h) (
        rw (status_known st fields h ended) (
          rw (found_ended (calm documented iso ns sha) j st (known_field "model" fields) ended)
            (refl, refl)))

  -- A cancellation of a job that has ended is answered with the status that the job has, and
  -- changes nothing in Redis. The server does as documented, no command fails, and no other client
  -- is at work.
  pub cancel_ended :
      (j st : String) (w : World)
      → IsRedis srv
      → Hash.get "status" (w.keys.hashes (job j)) ≡ some st
      → is_terminal st ≡ true
      → let (o, w') = cancel_job (calm srv iso ns sha) j w in
        (o ≡ ok (record { job_id = j; status = st })) × (w'.keys ≡ w.keys)
  cancel_ended j st w redis h ended = rw (IsRedis-eq redis) (ended_here j st w h ended)

  -- The data after the cancellation of a queued job.
  abbrev cancelled_keys : String → String → String → Keyspace → Keyspace
  cancelled_keys model j ts s =
      effect (publish j (status_value JobStatus.cancelled))
        (effect (expire (job j) 3600) (withdrawn model j ts s))

  abbrev pub after_waiting : String → String → World → Bool → Keyspace
  after_waiting j model w true = cancelled_keys model j (iso (suc w.step)) w.keys
  after_waiting j model w false =
      effect (hset (job j) (("status", status_value JobStatus.cancelling) ∷ [])) w.keys

  abbrev pub new_status : Bool → String
  new_status queued = status_value (if queued then JobStatus.cancelled else JobStatus.cancelling)

  cancel_by :
      (model j ts : String) (s : Keyspace) (b : Bool)
      → Zset.has j (s.zsets (queue model)) ≡ b
      → cancel documented model j ts s
        ≡ (if b then (some 1, withdrawn model j ts s) else (some 0, s))
  cancel_by model j ts s b e = cancel_lem documented model j ts s (λ _ _. refl) ∙ rw e refl

  withdraw_here :
      (j model : String) (w v : World) (b : Bool)
      → v.keys ≡ w.keys
      → v.step ≡ suc w.step
      → Zset.has j (w.keys.zsets (queue model)) ≡ b
      → let (o, w') = withdraw (calm documented iso ns sha) j model v in
        (o ≡ ok (record { job_id = j; status = new_status b }))
        × (w'.keys ≡ after_waiting j model w b)
  unfolding withdraw after_cancel cancelled_now mark_cancelling record_cancel evalsha_cancel_queued
  withdraw_here j model w v true k n e =
      ground (arith, cancel_by model j (iso (suc w.step)) w.keys true e)
  withdraw_here j model w v false k n e =
      ground (arith, cancel_by model j (iso (suc w.step)) w.keys false e)

  waiting_here :
      (j model : String) (w : World)
      → Hash.get "status" (w.keys.hashes (job j)) ≡ some (status_value JobStatus.queued)
      → Hash.get "model" (w.keys.hashes (job j)) ≡ some model
      → str_eq model "" ≡ false
      → let (o, w') = cancel_job (calm documented iso ns sha) j w in
        let queued = Zset.has j (w.keys.zsets (queue model)) in
        (o ≡ ok (record { job_id = j; status = new_status queued }))
        × (w'.keys ≡ after_waiting j model w queued)
  unfolding cancel_job cancel_found
  waiting_here j model w st m named =
      rw (cancel_known (calm documented iso ns sha) j _ (w.keys.hashes (job j)) st) (
        rw (st, m, named)
          (withdraw_here j model w (record w { step = suc w.step }) _ refl refl refl))

  -- A cancellation of a job whose status is "queued" withdraws it from the queue, marks it
  -- cancelled for an hour and tells who waits for it, if the queue still has it; and marks it
  -- cancelling, and nothing more, if a dispatcher has taken it. The server does as documented, no
  -- command fails, and no other client is at work.
  pub cancel_waiting :
      (j model : String) (w : World)
      → IsRedis srv
      → Hash.get "status" (w.keys.hashes (job j)) ≡ some (status_value JobStatus.queued)
      → Hash.get "model" (w.keys.hashes (job j)) ≡ some model
      → str_eq model "" ≡ false
      → let (o, w') = cancel_job (calm srv iso ns sha) j w in
        let queued = Zset.has j (w.keys.zsets (queue model)) in
        (o ≡ ok (record { job_id = j; status = new_status queued }))
        × (w'.keys ≡ after_waiting j model w queued)
  cancel_waiting j model w redis st m named =
      rw (IsRedis-eq redis) (waiting_here j model w st m named)

-- ===== src/Slots/Tasks.antt =====
-- The dispatcher (app/core/dispatcher.py) and the bound on slots.
use mathlib.Core.Path.{subst}
use talki_llm_admission_sche.Base.{ℕ, zero, suc, String, [], ◌∷◌, Option, none, some}
use talki_llm_admission_sche.Base.Int.{ℤ}
use talki_llm_admission_sche.State.{JobStatus, ErrorClass}
use talki_llm_admission_sche.Keys.{slots_in_use, slots_capacity, queue}
use talki_llm_admission_sche.Redis.{Env, IsRedis, World, Fields, bzpopmin, get_or}
use talki_llm_admission_sche.Redis.Keeps.{
  Keeps, OthersKeep, on_documented, env_path, keeps, evalsha-Keeps, bind-Keeps, pure-Keeps,
  then-Keeps, execute-Keeps, iso_now-Keeps, branch-Keeps,
}
use talki_llm_admission_sche.Python.Keeps.{counting_errors-Keeps, int_or_5-Keeps}
use talki_llm_admission_sche.Scripts.{claim_slot, evalsha_claim_slot}
use talki_llm_admission_sche.Slots.Bound.{
  InBound, claim-InBound, released, hset_expire-InBound, unchanged-InBound,
}
use talki_llm_admission_sche.Metrics.{
  record_redis_error, record_completion, record_failure, record_cancel,
}
use talki_llm_admission_sche.EventLog.{emit, Event}
use talki_llm_admission_sche.Dispatcher.{
  Worker, Job, Response, release_slot, publish_status, cleanup_slot, mark_completed, mark_failed,
  mark_cancelled, settle, forward_job, read_forward, is_stopped, status_error_class, responded,
  http_status_error, timeout_exception, connect_error, other_exception, cancelled, run_job,
  with_hash, dispatch, try_claim, is_claimed, claim_loop, Claim, claimed, stopping, waiting,
  after_claim, serve_item, wait_for_slot_and_claim, run_once, run, Forwarded,
}

module _ (model : String) (c : ℤ) (env : Env) (others : OthersKeep (InBound model c) env) where
  release_slot-Keeps :
      (m job_id : String) → Keeps (InBound model c) (release_slot (on_documented env) m job_id)
  unfolding release_slot record_redis_error
  release_slot-Keeps m job_id = search (keeps, released model c m job_id)

  publish_status-Keeps :
      (job_id : String) (status : JobStatus)
      → Keeps (InBound model c) (publish_status (on_documented env) job_id status)
  unfolding publish_status record_redis_error
  publish_status-Keeps job_id status = search (keeps, unchanged-InBound model c)

  emit-Keeps : (event : String → Event) → Keeps (InBound model c) (emit (on_documented env) event)
  unfolding emit
  emit-Keeps event = search keeps

  completion-Keeps : (m : String) (a b d : ℕ) → Keeps (InBound model c) (record_completion m a b d)
  unfolding record_completion
  completion-Keeps m a b d = search keeps

  mark_completed-Keeps :
      (j : Job) (r : Response) (a b : ℕ) (t : Option String)
      → Keeps (InBound model c) (mark_completed (on_documented env) j r a b t)
  unfolding mark_completed record_redis_error
  mark_completed-Keeps j r a b t =
      search
        (keeps, hset_expire-InBound model c, publish_status-Keeps, completion-Keeps, emit-Keeps)
        depth 10

  mark_failed-Keeps :
      (j : Job) (e : ErrorClass) (message : String) (http_status : Option ℕ)
      → Keeps (InBound model c) (mark_failed (on_documented env) j e message http_status)
  unfolding mark_failed record_redis_error record_failure
  mark_failed-Keeps j e message http_status =
      search (keeps, hset_expire-InBound model c, publish_status-Keeps, emit-Keeps) depth 10

  mark_cancelled-Keeps : (j : Job) → Keeps (InBound model c) (mark_cancelled (on_documented env) j)
  unfolding mark_cancelled record_redis_error record_cancel
  mark_cancelled-Keeps j =
      search (keeps, hset_expire-InBound model c, publish_status-Keeps, emit-Keeps) depth 10

  cleanup_slot-Keeps :
      (m job_id : String) (status : JobStatus) (e : ErrorClass)
      → Keeps (InBound model c) (cleanup_slot (on_documented env) m job_id status e)
  unfolding cleanup_slot
  cleanup_slot-Keeps m job_id status e =
      search (keeps, release_slot-Keeps, publish_status-Keeps) depth 10

  settle-Keeps :
      (j : Job) (a b : ℕ) (f : Forwarded)
      → Keeps (InBound model c) (settle (on_documented env) j a b f)
  unfolding settle
  settle-Keeps j a b (responded r t) = search (keeps, mark_completed-Keeps)
  settle-Keeps j a b (http_status_error n t) = mark_failed-Keeps j (status_error_class n) t (some n)
  settle-Keeps j a b (timeout_exception t) = mark_failed-Keeps j ErrorClass.backend_timeout t none
  settle-Keeps j a b (connect_error t) = mark_failed-Keeps j ErrorClass.network_error t none
  settle-Keeps j a b (other_exception t) = mark_failed-Keeps j ErrorClass.backend_5xx t none
  settle-Keeps j a b cancelled = search (keeps, mark_cancelled-Keeps)

  read_forward-Keeps : (wk : Worker) (t : String) → Keeps (InBound model c) (read_forward wk t)
  read_forward-Keeps wk t = record { run = λ w h. h }

  forward_job-Keeps :
      (wk : Worker) (j : Job) (a : ℕ) (payload : String)
      → Keeps (InBound model c) (forward_job (on_documented env) wk j a payload)
  unfolding forward_job
  forward_job-Keeps wk j a payload =
      search (keeps, settle-Keeps, release_slot-Keeps, read_forward-Keeps) depth 10

  run_job-Keeps :
      (wk : Worker) (job_id : String) (fields : Fields)
      → Keeps (InBound model c) (run_job (on_documented env) wk job_id fields)
  unfolding run_job
  run_job-Keeps wk job_id fields =
      search (keeps, int_or_5-Keeps, emit-Keeps, forward_job-Keeps) depth 10

  with_hash-Keeps :
      (wk : Worker) (job_id : String) (fields : Option Fields)
      → Keeps (InBound model c) (with_hash (on_documented env) wk job_id fields)
  unfolding with_hash
  with_hash-Keeps wk job_id none =
      cleanup_slot-Keeps wk.model job_id JobStatus.failed ErrorClass.worker_crash
  with_hash-Keeps wk job_id (some []) = release_slot-Keeps wk.model job_id
  with_hash-Keeps wk job_id (some (f ∷ fields)) = run_job-Keeps wk job_id (f ∷ fields)

  dispatch-Keeps :
      (wk : Worker) (job_id : String)
      → Keeps (InBound model c) (dispatch (on_documented env) wk job_id)
  unfolding dispatch record_redis_error
  dispatch-Keeps wk job_id = search (keeps, counting_errors-Keeps, with_hash-Keeps) depth 10

  claim_slot-Keeps :
      (m job_id ts : String)
      → Keeps
          (InBound model c)
          (evalsha_claim_slot (on_documented env) (slots_in_use m) (slots_capacity m) job_id ts)
  unfolding evalsha_claim_slot
  claim_slot-Keeps m job_id ts =
      evalsha-Keeps env (claim_slot (slots_in_use m) (slots_capacity m) job_id ts) others
        (claim-InBound model c m job_id ts)

  is_stopped-Keeps : (wk : Worker) → Keeps (InBound model c) (is_stopped wk)
  is_stopped-Keeps wk = record { run = λ w h. h }

  try_claim-Keeps :
      (wk : Worker) (job_id ts : String)
      → Keeps (InBound model c) (try_claim (on_documented env) wk job_id ts)
  unfolding try_claim
  try_claim-Keeps wk job_id ts =
      counting_errors-Keeps "evalsha_claim_slot" (claim_slot-Keeps wk.model job_id ts)

  claim_loop-Keeps :
      (rounds : ℕ) (wk : Worker) (job_id : String)
      → Keeps (InBound model c) (claim_loop rounds (on_documented env) wk job_id)
  unfolding claim_loop
  claim_loop-Keeps zero wk job_id = pure-Keeps waiting
  claim_loop-Keeps (suc rounds) wk job_id =
      let again = claim_loop-Keeps rounds wk job_id in
      bind-Keeps (is_stopped-Keeps wk) λ stop. branch-Keeps stop (pure-Keeps stopping) (
        bind-Keeps (iso_now-Keeps (on_documented env)) λ ts.
          bind-Keeps (try_claim-Keeps wk job_id ts)
            λ answer. branch-Keeps (is_claimed answer) (pure-Keeps claimed) again)

  after_claim-Keeps :
      (wk : Worker) (job_id : String) (r : Claim)
      → Keeps (InBound model c) (after_claim (on_documented env) wk job_id r)
  unfolding after_claim
  after_claim-Keeps wk job_id claimed = dispatch-Keeps wk job_id
  after_claim-Keeps wk job_id stopping = pure-Keeps tt
  after_claim-Keeps wk job_id waiting = pure-Keeps tt

  serve_item-Keeps :
      (rounds : ℕ) (wk : Worker) (item : Option (ℤ × String))
      → Keeps (InBound model c) (serve_item rounds (on_documented env) wk item)
  unfolding serve_item wait_for_slot_and_claim
  serve_item-Keeps rounds wk none = pure-Keeps tt
  serve_item-Keeps rounds wk (some (score, job_id)) =
      bind-Keeps (claim_loop-Keeps rounds wk job_id) (after_claim-Keeps wk job_id)

  run_once-Keeps :
      (rounds : ℕ) (wk : Worker) → Keeps (InBound model c) (run_once rounds (on_documented env) wk)
  unfolding run_once
  run_once-Keeps rounds wk =
      bind-Keeps
        (counting_errors-Keeps "bzpopmin"
          (execute-Keeps env (bzpopmin (queue wk.model)) others (λ s h. h)))
        (λ item. serve_item-Keeps rounds wk (get_or none item))

  run-Keeps :
      (n rounds : ℕ) (wk : Worker) → Keeps (InBound model c) (run n rounds (on_documented env) wk)
  unfolding run
  run-Keeps zero rounds wk = pure-Keeps tt
  run-Keeps (suc n) rounds wk =
      let again = run-Keeps n rounds wk in
      bind-Keeps (is_stopped-Keeps wk)
        λ stop. branch-Keeps stop (pure-Keeps tt) (then-Keeps (run_once-Keeps rounds wk) again)

-- A dispatcher, of whatever model and however long it runs, leaves a model within its capacity, if
-- it finds it so: whatever commands fail, whatever the backend answers and wherever the worker is
-- stopped or cancelled, and whatever the other clients do between two commands, if the server does
-- as documented and they keep the bound.
pub run-InBound :
    (model : String) (c : ℤ) (n rounds : ℕ) (env : Env) (wk : Worker) (w : World)
    → IsRedis env.srv
    → OthersKeep (InBound model c) env
    → InBound model c w.keys
    → InBound model c (run n rounds env wk w).1.keys
run-InBound model c n rounds env wk w redis others h =
    subst (λ e. InBound model c (run n rounds e wk w).1.keys) (env_path redis)
      ((run-Keeps model c env others n rounds wk).run w h)

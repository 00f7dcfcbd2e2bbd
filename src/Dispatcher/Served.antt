-- ===== src/Dispatcher/Served.antt =====
-- What the dispatcher sends for a job when Redis answers every command and no other client interferes.
use talki_llm_admission_sche.Base.{
  ℕ, suc, ◌≡◌, refl, ap, ◌∙◌, true, false, Bool-cases, ◌⊎◌, inl, inr, Option, some, List, [], ◌∷◌,
  String, str_eq,
}
use talki_llm_admission_sche.Base.Int.{ℤ, pos}
use talki_llm_admission_sche.Keys.Equality.{key_eq_refl}
use talki_llm_admission_sche.Keys.{Key, job, lease, inflight, queue, update}
use talki_llm_admission_sche.Redis.{
  World, Keyspace, Command, Fields, documented, calm, run_all, setex, zadd, nonempty, M, ok, pure,
  bzpopmin,
}
use talki_llm_admission_sche.Redis.Hash
use talki_llm_admission_sche.Redis.Zset
use talki_llm_admission_sche.Redis.Zset.{Zset}
use talki_llm_admission_sche.Dispatcher.{
  Worker, Job, Forwarded, responded, http_status_error, timeout_exception, connect_error,
  other_exception, cancelled, settle, forward_job, mark_completed, mark_failed, mark_cancelled,
  release_slot, publish_status, field, payload_of, run_job, with_hash, dispatch, claim_loop,
  after_claim, run_once, try_claim, claimed, Claim, is_claimed, wait_for_slot_and_claim, serve_item,
  lease_ttl,
}
use talki_llm_admission_sche.Scripts.Atomic.{has_room, claimed as taken}
use talki_llm_admission_sche.Dispatcher.Progress.{bound, try_claim_room}
use talki_llm_admission_sche.Python.{or_text, counting_errors}
use talki_llm_admission_sche.EventLog.{build_dispatched_event, emit}
use talki_llm_admission_sche.Dispatcher.Final.{final_commands}

-- The text of the priority is empty, or a number.
abbrev pub IsPriority : Worker → String → Type 0
IsPriority wk t =
    (str_eq t "" ≡ true) ⊎ ((str_eq t "" ≡ false) × (n : ℤ) × (wk.parse_int t ≡ some n))

put-nonempty : (f v : String) (h : Fields) → nonempty (Hash.put f v h) ≡ true
put-nonempty f v [] = refl
put-nonempty f v ((g, w) ∷ h) = elim (Bool-cases (str_eq g f)) [
  | inl e ↦ rw e refl
  | inr e ↦ rw e refl
]

pub update_at {ℓ} : {A : Type ℓ} (t : Key → A) (k : Key) (a : A) → update t k a k ≡ a
update_at t k a = rw (key_eq_refl k) refl

module _ (iso : ℕ → String) (ns : ℕ → ℕ) (sha : String → String) (wk : Worker) where
  settled_keys :
      (j : Job) (wait_s : ℕ) (payload : String) (w : World) (f : Forwarded)
      → wk.forward w.step payload ≡ f
      → (forward_job (calm documented iso ns sha) wk j wait_s payload w).1.keys
        ≡ run_all documented (final_commands f wk.model j.job_id (iso w.step)) w.keys
  unfolding forward_job settle mark_completed mark_failed mark_cancelled publish_status release_slot
  settled_keys j wait_s payload w (responded r target) h = rw (h, settle) refl
  settled_keys j wait_s payload w (http_status_error code message) h = rw (h, settle) refl
  settled_keys j wait_s payload w (timeout_exception message) h = rw (h, settle) refl
  settled_keys j wait_s payload w (connect_error message) h = rw (h, settle) refl
  settled_keys j wait_s payload w (other_exception message) h = rw (h, settle) refl
  settled_keys j wait_s payload w cancelled h = rw (h, settle) refl

  -- The job of a hash, as the dispatcher reads it.
  abbrev read_job : String → Fields → ℤ → Job
  read_job job_id job_hash priority = record {
    job_id = job_id;
    request_id = field "request_id" job_hash;
    model = or_text (field "model" job_hash) wk.model;
    caller = field "caller" job_hash;
    priority = priority;
  }

  run_job_keys :
      (job_id : String) (job_hash : Fields) (w : World)
      → IsPriority wk (field "priority" job_hash)
      → (run_job (calm documented iso ns sha) wk job_id job_hash w).1.keys
        ≡ run_all documented
            (final_commands
              (wk.forward w.step (payload_of wk job_hash))
              wk.model
              job_id
              (iso w.step))
            w.keys
  unfolding run_job emit build_dispatched_event
  run_job_keys job_id job_hash w (inl e) =
      rw e (settled_keys (read_job job_id job_hash (pos 5)) _ (payload_of wk job_hash) _ _ refl)
  run_job_keys job_id job_hash w (inr (given, n, read)) =
      rw (given, read)
        (settled_keys (read_job job_id job_hash n) _ (payload_of wk job_hash) _ _ refl)

  abbrev pub lease_commands : String → ℕ → List Command
  lease_commands job_id now =
      setex (lease job_id) (lease_ttl wk.model_cfg) wk.worker_id
      ∷ zadd (inflight wk.model) (pos now) job_id
      ∷ []

  -- How the backend answers the job, when its lease is written and its hash read.
  abbrev pub answer_at : ℕ → Fields → Forwarded
  answer_at step job_hash = wk.forward (suc (suc step)) (payload_of wk job_hash)

  abbrev leased : String → World → World
  leased job_id w = record w {
    keys = run_all documented (lease_commands job_id (ns w.step)) w.keys;
    step = suc (suc w.step);
  }

  dispatched :
      (job_id : String) (w : World)
      → dispatch (calm documented iso ns sha) wk job_id w
        ≡ with_hash
            (calm documented iso ns sha)
            wk
            job_id
            (some (w.keys.hashes (job job_id)))
            (leased job_id w)
  unfolding dispatch counting_errors
  dispatched job_id w = refl

  with_hash_run :
      (job_id : String) (x : String × String) (job_hash h : Fields) (w : World)
      → h ≡ x ∷ job_hash
      → with_hash (calm documented iso ns sha) wk job_id (some h) w
        ≡ run_job (calm documented iso ns sha) wk job_id (x ∷ job_hash) w
  unfolding with_hash
  with_hash_run job_id x job_hash h w e =
      ap (λ f. with_hash (calm documented iso ns sha) wk job_id (some f) w) e

  dispatch_keys :
      (job_id : String) (job_hash : Fields) (w : World)
      → nonempty job_hash ≡ true
      → w.keys.hashes (job job_id) ≡ job_hash
      → IsPriority wk (field "priority" job_hash)
      → (dispatch (calm documented iso ns sha) wk job_id w).1.keys
        ≡ run_all documented
            (final_commands (answer_at w.step job_hash) wk.model job_id (iso (suc (suc w.step))))
            (run_all documented (lease_commands job_id (ns w.step)) w.keys)
  dispatch_keys job_id [] w some_field hash reads = absurd (cc)
  dispatch_keys job_id (x ∷ job_hash) w some_field hash reads =
      ap (λ p. p.1.keys)
        (dispatched job_id w
          ∙ with_hash_run job_id x job_hash (w.keys.hashes (job job_id)) (leased job_id w) hash)
      ∙ run_job_keys job_id (x ∷ job_hash) (leased job_id w) reads

  claim_at_once :
      (rounds : ℕ) (job_id : String) (w : World)
      → wk.stopped w.step ≡ false
      → has_room wk.model w.keys ≡ true
      → claim_loop (suc rounds) (calm documented iso ns sha) wk job_id w ≡ (
        ok claimed,
        record w { keys = taken wk.model job_id (iso w.step) w.keys; step = suc w.step },
      )
  unfolding claim_loop
  claim_at_once rounds job_id w going room =
      let answered = λ (answer : Option ℕ). elim (is_claimed answer) as (λ _. M Claim) [
        | true ↦ pure claimed
        | false ↦ claim_loop rounds (calm documented iso ns sha) wk job_id
      ] in
      let after = record w {
        keys = taken wk.model job_id (iso w.step) w.keys;
        step = suc w.step;
      } in
      rw going (
        bound (try_claim (calm documented iso ns sha) wk job_id (iso w.step)) answered w after
          (some 1)
          (try_claim_room (calm documented iso ns sha) wk job_id (iso w.step) (λ c s. refl) w refl
            room))

  -- The data when the job is popped, when it is claimed, and when it has ended.
  abbrev pub popped : Keyspace → Keyspace
  popped s = (documented (bzpopmin (queue wk.model)) s).1

  pub run_once_item :
      (rounds : ℕ) (score : ℤ) (job_id : String) (rest : Zset) (w : World)
      → w.keys.zsets (queue wk.model) ≡ (score, job_id) ∷ rest
      → run_once rounds (calm documented iso ns sha) wk w
        ≡ wait_for_slot_and_claim rounds
            (calm documented iso ns sha)
            wk
            job_id
            (record w { keys = popped w.keys; step = suc w.step })
  unfolding run_once serve_item counting_errors
  run_once_item rounds score job_id rest w queued =
      ap
        (λ z.
          serve_item rounds (calm documented iso ns sha) wk (Zset.first z)
            (record w { keys = popped w.keys; step = suc w.step }))
        queued

  -- The hash of the job when it has been claimed.
  abbrev pub claimed_hash : String → ℕ → Keyspace → Fields
  claimed_hash job_id step s =
      Hash.put_all (("status", "dispatched") ∷ ("dispatch_ts", iso step) ∷ [])
        (s.hashes (job job_id))

  abbrev pub served : String → ℕ → Forwarded → Keyspace → Keyspace
  served job_id step f s =
      run_all documented (final_commands f wk.model job_id (iso (suc (suc (suc (suc step)))))) (
        run_all documented (lease_commands job_id (ns (suc (suc step))))
          (taken wk.model job_id (iso (suc step)) (popped s)))

  waits :
      (rounds : ℕ) (job_id : String) (w : World)
      → wk.stopped w.step ≡ false
      → has_room wk.model w.keys ≡ true
      → wait_for_slot_and_claim (suc rounds) (calm documented iso ns sha) wk job_id w
        ≡ dispatch
            (calm documented iso ns sha)
            wk
            job_id
            (record w { keys = taken wk.model job_id (iso w.step) w.keys; step = suc w.step })
  unfolding wait_for_slot_and_claim after_claim
  waits rounds job_id w going room =
      bound (claim_loop (suc rounds) (calm documented iso ns sha) wk job_id)
        (after_claim (calm documented iso ns sha) wk job_id) w
        (record w { keys = taken wk.model job_id (iso w.step) w.keys; step = suc w.step }) claimed
        (claim_at_once rounds job_id w going room)

  -- The worker's turn, command by command: the job is popped, claimed, leased, forwarded and settled.
  pub run_once-served :
      (rounds : ℕ) (score : ℤ) (job_id : String) (rest : Zset) (w : World)
      → w.keys.zsets (queue wk.model) ≡ (score, job_id) ∷ rest
      → wk.stopped (suc w.step) ≡ false
      → has_room wk.model w.keys ≡ true
      → IsPriority wk (field "priority" (claimed_hash job_id (suc w.step) w.keys))
      → (run_once (suc rounds) (calm documented iso ns sha) wk w).1.keys
        ≡ served job_id w.step
            (answer_at (suc (suc w.step)) (claimed_hash job_id (suc w.step) w.keys))
            w.keys
  run_once-served rounds score job_id rest w queued going room reads =
      let start = record w { keys = popped w.keys; step = suc w.step } in
      let held = record start {
        keys = taken wk.model job_id (iso (suc w.step)) (popped w.keys);
        step = suc (suc w.step);
      } in
      ap (λ p. p.1.keys)
        (run_once_item (suc rounds) score job_id rest w queued
          ∙ waits rounds job_id start going room)
      ∙ dispatch_keys job_id (claimed_hash job_id (suc w.step) w.keys) held
          (put-nonempty "dispatch_ts" (iso (suc w.step))
            (Hash.put "status" "dispatched" (w.keys.hashes (job job_id))))
          (update_at w.keys.hashes (job job_id) (claimed_hash job_id (suc w.step) w.keys)) reads

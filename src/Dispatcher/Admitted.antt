-- ===== src/Dispatcher/Admitted.antt =====
-- A submission and the turn of the dispatcher that serves it; and a job that a stopping worker has taken.
use mathlib.Core.Path.{subst}
use talki_llm_admission_sche.Base.{
  ℕ, zero, suc, ◌+◌, ◌≤◌, ◌<◌, arith, ◌≡◌, refl, sym, ap, ◌∙◌, true, false, Bool-cases, inl, inr,
  Option, none, some, [], ◌∷◌, String, str_eq,
}
use talki_llm_admission_sche.Base.Int.{ℤ, pos, leb_ℤ}
use talki_llm_admission_sche.Base.Decimal.{str}
use talki_llm_admission_sche.Config.{AppConfig, ModelConfig, model_config_for}
use talki_llm_admission_sche.Keys.{job, queue, seq, idem, update}
use talki_llm_admission_sche.Redis.{
  World, Keyspace, Server, IsRedis, IsRedis-eq, calm, effect, incr, is_some, documented, ok, M,
  pure,
}
use talki_llm_admission_sche.Redis.Hash
use talki_llm_admission_sche.Redis.Zset
use talki_llm_admission_sche.Redis.Zset.{Zset}
use talki_llm_admission_sche.Scripts.Atomic.{depth, has_room, enqueued}
use talki_llm_admission_sche.Scripts.Joined.{IsPlain}
use talki_llm_admission_sche.Admission.{Submission, admit, given, effective_priority, job_fields}
use talki_llm_admission_sche.Admission.Submit.{
  recorded, key_kept, looked_up, sent_score, IsPlainSubmission,
}
use talki_llm_admission_sche.Admission.Outcomes.{admit_accepts}
use talki_llm_admission_sche.Dispatcher.{
  Worker, run_once, field, wait_for_slot_and_claim, claim_loop, after_claim, stopping, Claim,
  claimed, is_claimed, try_claim,
}
use talki_llm_admission_sche.Dispatcher.Progress.{bound, try_claim_full}
use talki_llm_admission_sche.Dispatcher.Served.{update_at, IsPriority, popped, run_once_item}
use talki_llm_admission_sche.Dispatcher.Outcome.{Finished, backend_answer, run_once-Finished}

module _ (sha : String → String) (job_id : String) (s : Keyspace) where
  key_kept-zsets : (k : Option String) → (key_kept sha k job_id s).zsets ≡ s.zsets
  key_kept-zsets none = refl
  key_kept-zsets (some k) = elim (Bool-cases (is_some (s.strings (idem (sha k))))) [
    | inl e ↦ rw e refl
    | inr e ↦ rw e refl
  ]

  key_kept-hashes : (k : Option String) → (key_kept sha k job_id s).hashes ≡ s.hashes
  key_kept-hashes none = refl
  key_kept-hashes (some k) = elim (Bool-cases (is_some (s.strings (idem (sha k))))) [
    | inl e ↦ rw e refl
    | inr e ↦ rw e refl
  ]

  key_kept-counters : (k : Option String) → (key_kept sha k job_id s).counters ≡ s.counters
  key_kept-counters none = refl
  key_kept-counters (some k) = elim (Bool-cases (is_some (s.strings (idem (sha k))))) [
    | inl e ↦ rw e refl
    | inr e ↦ rw e refl
  ]

-- The text of a number is its priority, if `int` reads what `str` writes.
str-IsPriority : (wk : Worker) (p : ℤ) → wk.parse_int (str p) ≡ some p → IsPriority wk (str p)
str-IsPriority wk p reads = elim (Bool-cases (str_eq (str p) "")) [
  | inl e ↦ inl e
  | inr e ↦ inr (e, p, reads)
]

module _ (srv : Server) (iso : ℕ → String) (ns : ℕ → ℕ) (sha : String → String) where
  -- What a submission leaves in Redis if it is accepted to an empty queue.
  module _ (r : Submission) (score : ℤ) (p : ℤ) (ts : String) (s : Keyspace) where
    abbrev entered : Keyspace
    entered =
        key_kept sha (given r.idempotency_key) r.job_id
          (enqueued r.model r.job_id score (job_fields r p ts) (effect (incr (seq r.model)) s))

    abbrev listed : Keyspace
    listed = enqueued r.model r.job_id score (job_fields r p ts) (effect (incr (seq r.model)) s)

    entered-queue :
        s.zsets (queue r.model) ≡ [] → entered.zsets (queue r.model) ≡ (score, r.job_id) ∷ []
    entered-queue empty =
        ap (λ z. z (queue r.model)) (key_kept-zsets sha r.job_id listed (given r.idempotency_key))
        ∙ update_at s.zsets (queue r.model) (Zset.add score r.job_id (s.zsets (queue r.model)))
        ∙ ap (Zset.add score r.job_id) empty

    entered-room : has_room r.model s ≡ true → has_room r.model entered ≡ true
    entered-room room =
        subst (λ c. has_room r.model (record s { counters = c }) ≡ true)
          (sym (key_kept-counters sha r.job_id listed (given r.idempotency_key))) room

    entered-priority :
        s.hashes (job r.job_id) ≡ [] → field "priority" (entered.hashes (job r.job_id)) ≡ str p
    entered-priority new =
        ap (λ h. field "priority" (h (job r.job_id)))
          (key_kept-hashes sha r.job_id listed (given r.idempotency_key))
        ∙ ap (field "priority") (
            update_at s.hashes (job r.job_id)
              (Hash.put_all (job_fields r p ts) (s.hashes (job r.job_id))))
        ∙ ap (λ h. field "priority" (Hash.put_all (job_fields r p ts) h)) new

  -- A submission to an empty queue, and then a turn of the worker of its model: the job ends with the status of the
  -- backend's answer, with nothing of it left in the queue, the leases and the slots. The conditions are those
  -- of a submission that is accepted and of a free slot; the job id is new, Redis does as documented, answers every
  -- command and serves no other client, the worker is not stopped, and `int` reads the priority as `str` writes it.
  pub admitted-Finished :
      (config : AppConfig) (r : Submission) (c : ModelConfig) (wk : Worker) (rounds : ℕ) (w : World)
      → IsRedis srv
      → model_config_for config r.model ≡ some c
      → recorded sha (given r.idempotency_key) w.keys ≡ none
      → leb_ℤ c.max_queue_depth (pos 0) ≡ false
      → IsPlainSubmission r
      → IsPlain (iso (suc (looked_up (given r.idempotency_key) w.step)))
      → w.keys.zsets (queue r.model) ≡ []
      → w.keys.hashes (job r.job_id) ≡ []
      → has_room r.model w.keys ≡ true
      → wk.model ≡ r.model
      → ((n : ℕ) → wk.stopped n ≡ false)
      → (let p = effective_priority r.priority c in wk.parse_int (str p) ≡ some p)
      → let w' = (admit (calm srv iso ns sha) config r w).1 in
        Finished wk r.job_id []
          (backend_answer iso ns sha wk r.job_id w')
          w'.keys
          (run_once (suc rounds) (calm srv iso ns sha) wk w').1.keys
  admitted-Finished config r c wk rounds w redis known unkeyed deep texts ts empty new room same
        going reads =
      let v = record w { step = looked_up (given r.idempotency_key) w.step } in
      let p = effective_priority r.priority c in
      let sent = sent_score iso ns sha c r v in
      let enough : leb_ℤ c.max_queue_depth (pos (depth r.model w.keys)) ≡ false = rw empty deep in
      let (q, o, keys) =
        admit_accepts srv iso ns sha config r c w redis known unkeyed enough texts ts in
      let w' = (admit (calm srv iso ns sha) config r w).1 in
      let at = iso (suc v.step) in
      run_once-Finished srv iso ns sha wk rounds sent r.job_id [] w' redis
        (ap (λ m. w'.keys.zsets (queue m)) same
          ∙ ap (λ s. s.zsets (queue r.model)) keys
          ∙ entered-queue r sent p at w.keys empty)
        (going (suc w'.step))
        (ap (λ m. has_room m w'.keys) same
          ∙ ap (has_room r.model) keys
          ∙ entered-room r sent p at w.keys room)
        (subst (IsPriority wk)
          (sym (
            ap (λ s. field "priority" (s.hashes (job r.job_id))) keys
            ∙ entered-priority r sent p at w.keys new))
          (str-IsPriority wk p reads))

module _ (iso : ℕ → String) (ns : ℕ → ℕ) (sha : String → String) (wk : Worker)
    (job_id : String) where
  -- The loop has ended as the worker is stopped, and has changed nothing.
  abbrev Stops : ℕ → World → Type 0
  Stops rounds w =
      (n : ℕ) × (claim_loop rounds (calm documented iso ns sha) wk job_id w
        ≡ (ok stopping, record w { step = n }))

  -- One more round without a free slot.
  waits_on :
      (rounds : ℕ) (w : World)
      → wk.stopped w.step ≡ false
      → has_room wk.model w.keys ≡ false
      → Stops rounds (record w { step = suc w.step })
      → Stops (suc rounds) w
  unfolding claim_loop
  waits_on rounds w going full later =
      let env = calm documented iso ns sha in
      let answered = λ (answer : Option ℕ). elim (is_claimed answer) as (λ _. M Claim) [
        | true ↦ pure claimed
        | false ↦ claim_loop rounds env wk job_id
      ] in
      (
        later.0,
        rw going (
            bound (try_claim env wk job_id (iso w.step)) answered w (record w { step = suc w.step })
              (some 0) (try_claim_full env wk job_id (iso w.step) (λ c s. refl) w refl full)
            ∙ later.1),
      )

  loop-Stops :
      (rounds k : ℕ) (w : World)
      → k ≤ rounds
      → wk.stopped (w.step + k) ≡ true
      → (0 < k → has_room wk.model w.keys ≡ false)
      → Stops (suc rounds) w
  unfolding claim_loop
  loop-Stops rounds zero w enough stop full =
      let now : wk.stopped w.step ≡ true = subst (λ n. wk.stopped n ≡ true) (omega arith) stop in
      (w.step, rw now refl)
  loop-Stops zero (suc k) w enough stop full = absurd (omega (arith, enough))
  loop-Stops (suc rounds) (suc k) w enough stop full = elim (Bool-cases (wk.stopped w.step)) [
    | inl e ↦ (w.step, rw e refl)
    | inr e ↦ waits_on (suc rounds) w e (full (omega arith)) (
        loop-Stops rounds k (record w { step = suc w.step }) (omega (arith, enough))
          (subst (λ n. wk.stopped n ≡ true) (omega arith) stop) (λ _. full (omega arith)))
  ]

  stopped_waiting :
      (rounds : ℕ) (w : World)
      → Stops rounds w
      → (wait_for_slot_and_claim rounds (calm documented iso ns sha) wk job_id w).1.keys ≡ w.keys
  unfolding wait_for_slot_and_claim after_claim
  stopped_waiting rounds w stops =
      ap (λ o. o.1.keys)
        (bound (claim_loop rounds (calm documented iso ns sha) wk job_id)
          (after_claim (calm documented iso ns sha) wk job_id) w (record w { step = stops.0 })
          stopping stops.1)

  stopped_turn :
      (rounds k : ℕ) (score : ℤ) (rest : Zset) (w : World)
      → w.keys.zsets (queue wk.model) ≡ (score, job_id) ∷ rest
      → k ≤ rounds
      → wk.stopped (suc w.step + k) ≡ true
      → (0 < k → has_room wk.model w.keys ≡ false)
      → (run_once (suc rounds) (calm documented iso ns sha) wk w).1.keys
        ≡ record w.keys { zsets = update w.keys.zsets (queue wk.model) rest }
  stopped_turn rounds k score rest w queued enough stop full =
      let start = record w { keys = popped iso ns sha wk w.keys; step = suc w.step } in
      ap (λ o. o.1.keys) (run_once_item iso ns sha wk (suc rounds) score job_id rest w queued)
      ∙ stopped_waiting (suc rounds) start (loop-Stops rounds k start enough stop full)
      ∙ ap (λ z. record w.keys { zsets = update w.keys.zsets (queue wk.model) (Zset.rest z) })
          queued

-- A worker that takes the next job and is stopped before it has claimed a slot, be it at once or after `k` rounds in
-- which no slot was free, leaves the job nowhere: it is out of the queue, and nothing else of the data has
-- changed, so that its hash still has the status that it had. Redis does as documented, answers every command and
-- serves no other client; and the loop may make more rounds than `k`.
pub run_once_stopped :
    (srv : Server) (iso : ℕ → String) (ns : ℕ → ℕ) (sha : String → String) (wk : Worker)
    (rounds k : ℕ) (score : ℤ) (job_id : String) (rest : Zset) (w : World)
    → IsRedis srv
    → w.keys.zsets (queue wk.model) ≡ (score, job_id) ∷ rest
    → k ≤ rounds
    → wk.stopped (suc w.step + k) ≡ true
    → (0 < k → has_room wk.model w.keys ≡ false)
    → let t = (run_once (suc rounds) (calm srv iso ns sha) wk w).1.keys in
      (t.zsets (queue wk.model) ≡ rest)
      × (t ≡ record w.keys { zsets = update w.keys.zsets (queue wk.model) rest })
run_once_stopped srv iso ns sha wk rounds k score job_id rest w redis queued enough stop full =
    let t = (run_once (suc rounds) (calm srv iso ns sha) wk w).1.keys in
    let left = record w.keys { zsets = update w.keys.zsets (queue wk.model) rest } in
    let same : t ≡ left =
      subst (λ r. (run_once (suc rounds) (calm r iso ns sha) wk w).1.keys ≡ left)
        (sym (IsRedis-eq redis))
        (stopped_turn iso ns sha wk job_id rounds k score rest w queued enough stop full) in
    (ap (λ s. s.zsets (queue wk.model)) same ∙ update_at w.keys.zsets (queue wk.model) rest, same)

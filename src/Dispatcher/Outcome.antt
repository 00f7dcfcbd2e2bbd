-- ===== src/Dispatcher/Outcome.antt =====
-- What is left of a job that the dispatcher has served.
use mathlib.Core.Path.{subst}
use talki_llm_admission_sche.Base.{
  ℕ, suc, ◌≡◌, refl, sym, ap, ◌∙◌, true, false, Bool-cases, inl, inr, none, some, [], ◌∷◌, String,
  str_eq, eq_refl, eq_iff, arith, All, if◌then◌else◌,
}
use talki_llm_admission_sche.Base.Int.{ℤ, pos, negsuc, ◌+ℤ◌, int_laws}
use talki_llm_admission_sche.State.{status_value}
use talki_llm_admission_sche.Keys.{Key, job, lease, inflight, queue, slots_in_use}
use talki_llm_admission_sche.Redis.{
  World, Keyspace, Fields, documented, calm, effect, get_or, publish, zrem, decr, bzpopmin, has_key,
  run_all, hset, expire, IsRedis, IsRedis-eq, Server,
}
use talki_llm_admission_sche.Redis.Hash
use talki_llm_admission_sche.Redis.Zset
use talki_llm_admission_sche.Redis.Zset.{Zset}
use talki_llm_admission_sche.Scripts.Atomic.{has_room, in_use, claimed as taken}
use talki_llm_admission_sche.Python.{or_text}
use talki_llm_admission_sche.Dispatcher.{
  Worker, Forwarded, responded, http_status_error, timeout_exception, connect_error,
  other_exception, cancelled, run_once, field, payload_of,
}
use talki_llm_admission_sche.Dispatcher.Final.{final_status, outcome_fields, final_commands}
use talki_llm_admission_sche.Dispatcher.Served.{
  update_at, served, lease_commands, claimed_hash, answer_at, IsPriority, run_once-served,
}

module _ (k : Key) (n : ℕ) (s : Keyspace) where
  expire-hashes : (effect (expire k n) s).hashes ≡ s.hashes
  expire-hashes = elim (Bool-cases (has_key k s)) [ inl e ↦ rw e refl | inr e ↦ rw e refl ]

  expire-counters : (effect (expire k n) s).counters ≡ s.counters
  expire-counters = elim (Bool-cases (has_key k s)) [ inl e ↦ rw e refl | inr e ↦ rw e refl ]

  expire-zsets : (effect (expire k n) s).zsets ≡ s.zsets
  expire-zsets = elim (Bool-cases (has_key k s)) [ inl e ↦ rw e refl | inr e ↦ rw e refl ]

  expire-published : (effect (expire k n) s).published ≡ s.published
  expire-published = elim (Bool-cases (has_key k s)) [ inl e ↦ rw e refl | inr e ↦ rw e refl ]

module _ (f : Forwarded) (model job_id ts : String) (s : Keyspace) where
  abbrev after : Keyspace
  after = run_all documented (final_commands f model job_id ts) s

  abbrev final_fields : Fields
  final_fields = ("status", status_value (final_status f)) ∷ ("complete_ts", ts) ∷ outcome_fields f

  abbrev marked : Keyspace
  marked = effect (hset (job job_id) final_fields) s

  -- Before the lease is deleted.
  abbrev told : Keyspace
  told =
      effect (publish job_id (status_value (final_status f)))
        (effect (expire (job job_id) 3600) marked)

  abbrev released : Keyspace
  released = effect (zrem (inflight model) job_id) (effect (decr (slots_in_use model)) told)

  after-hash : after.hashes (job job_id) ≡ Hash.put_all final_fields (s.hashes (job job_id))
  after-hash =
      ap (λ h. h (job job_id)) (expire-hashes (job job_id) 3600 marked)
      ∙ update_at s.hashes (job job_id) (Hash.put_all final_fields (s.hashes (job job_id)))

  after-lease : after.strings (lease job_id) ≡ none
  after-lease = update_at released.strings (lease job_id) none

  after-published : after.published ≡ (job_id, status_value (final_status f)) ∷ s.published
  after-published =
      ap (λ p. (job_id, status_value (final_status f)) ∷ p)
        (expire-published (job job_id) 3600 marked)

  after-slots : after.counters (slots_in_use model) ≡ some (in_use model s +ℤ negsuc 0)
  after-slots =
      update_at told.counters (slots_in_use model)
        (some (get_or (pos 0) (told.counters (slots_in_use model)) +ℤ negsuc 0))
      ∙ ap (λ c. some (get_or (pos 0) (c (slots_in_use model)) +ℤ negsuc 0))
          (expire-counters (job job_id) 3600 marked)

  after-inflight : after.zsets (inflight model) ≡ Zset.remove job_id (s.zsets (inflight model))
  after-inflight =
      update_at told.zsets (inflight model) (Zset.remove job_id (told.zsets (inflight model)))
      ∙ ap (λ z. Zset.remove job_id (z (inflight model))) (expire-zsets (job job_id) 3600 marked)

  after-queue : after.zsets (queue model) ≡ s.zsets (queue model)
  after-queue = ap (λ z. z (queue model)) (expire-zsets (job job_id) 3600 marked)

has-remove : (m : String) (z : Zset) → Zset.has m (Zset.remove m z) ≡ false
has-remove m [] = refl
has-remove m ((s, n) ∷ z) = ground (arith, has-remove m z)

-- A field that is put is what is read, and the others stay.
get-put : (f v : String) (h : Fields) → Hash.get f (Hash.put f v h) ≡ some v
get-put f v [] = rw (eq_refl f) refl
get-put f v ((g, w) ∷ h) = elim (Bool-cases (str_eq g f)) [
  | inl e ↦ rw (e, eq_refl f) refl
  | inr e ↦ rw (e, e) (get-put f v h)
]

get-put_other :
    (f g v : String) (h : Fields) → str_eq g f ≡ false → Hash.get f (Hash.put g v h) ≡ Hash.get f h
get-put_other f g v [] ne = rw ne refl
get-put_other f g v ((k, w) ∷ h) ne = ground (arith, eq_iff k g, get-put_other f g v h ne)

get-put_all_other :
    (f : String) (fs h : Fields)
    → All (λ p. str_eq p.0 f ≡ false) fs
    → Hash.get f (Hash.put_all fs h) ≡ Hash.get f h
get-put_all_other f [] h ne = refl
get-put_all_other f ((g, v) ∷ fs) h ne =
    get-put_all_other f fs (Hash.put g v h) ne.1 ∙ get-put_other f g v h ne.0

-- The fields that are put with the status are others.
no_status : (f : Forwarded) → All (λ p. str_eq p.0 "status" ≡ false) (outcome_fields f)
no_status (responded r target) = (refl, tt)
no_status (http_status_error code message) = (refl, (refl, (refl, tt)))
no_status (timeout_exception message) = (refl, (refl, tt))
no_status (connect_error message) = (refl, (refl, tt))
no_status (other_exception message) = (refl, (refl, tt))
no_status cancelled = tt

final-status :
    (f : Forwarded) (ts : String) (h : Fields)
    → Hash.get "status" (
        Hash.put_all
          (("status", status_value (final_status f)) ∷ ("complete_ts", ts) ∷ outcome_fields f)
          h)
      ≡ some (status_value (final_status f))
final-status f ts h =
    get-put_all_other "status" (("complete_ts", ts) ∷ outcome_fields f)
      (Hash.put "status" (status_value (final_status f)) h) (refl, no_status f)
    ∙ get-put "status" (status_value (final_status f)) h

up_down : (n : ℤ) → (n +ℤ pos 1) +ℤ negsuc 0 ≡ n
up_down n = omega int_laws

-- What is left of a served job, in the data before and after.
pub record Finished (wk : Worker) (job_id : String) (rest : Zset) (f : Forwarded) (s t : Keyspace)
    : Type 0 where
  pub status : Hash.get "status" (t.hashes (job job_id)) ≡ some (status_value (final_status f))
  pub slots : t.counters (slots_in_use wk.model) ≡ some (in_use wk.model s)
  pub lease_gone : t.strings (lease job_id) ≡ none
  pub not_inflight : Zset.has job_id (t.zsets (inflight wk.model)) ≡ false
  pub queue_left : t.zsets (queue wk.model) ≡ rest
  pub told_caller : t.published ≡ (job_id, status_value (final_status f)) ∷ s.published

module _ (iso : ℕ → String) (ns : ℕ → ℕ) (sha : String → String) (wk : Worker) where
  served-Finished :
      (job_id : String) (step : ℕ) (score : ℤ) (rest : Zset) (f : Forwarded) (s : Keyspace)
      → s.zsets (queue wk.model) ≡ (score, job_id) ∷ rest
      → Finished wk job_id rest f s (served iso ns sha wk job_id step f s)
  served-Finished job_id step score rest f s queued =
      let ts = iso (suc (suc (suc (suc step)))) in
      let now = ns (suc (suc step)) in
      let start = taken wk.model job_id (iso (suc step)) (effect (bzpopmin (queue wk.model)) s) in
      let held = run_all documented (lease_commands iso ns sha wk job_id now) start in
      record {
        status =
            ap (Hash.get "status") (after-hash f wk.model job_id ts held)
            ∙ final-status f ts (held.hashes (job job_id));
        slots =
            after-slots f wk.model job_id ts held
            ∙ ap (λ c. some (get_or (pos 0) c +ℤ negsuc 0))
                (update_at s.counters (slots_in_use wk.model) (some (in_use wk.model s +ℤ pos 1)))
            ∙ ap some (up_down (in_use wk.model s));
        lease_gone = after-lease f wk.model job_id ts held;
        not_inflight =
            ap (Zset.has job_id) (after-inflight f wk.model job_id ts held)
            ∙ has-remove job_id (held.zsets (inflight wk.model));
        queue_left =
            after-queue f wk.model job_id ts held
            ∙ update_at s.zsets (queue wk.model) (Zset.rest (s.zsets (queue wk.model)))
            ∙ ap Zset.rest queued;
        told_caller = after-published f wk.model job_id ts held;
      }

  -- What the dispatcher reads of the job is not changed by its claim.
  claimed-field :
      (key job_id : String) (step : ℕ) (s : Keyspace)
      → str_eq "status" key ≡ false
      → str_eq "dispatch_ts" key ≡ false
      → field key (claimed_hash iso ns sha wk job_id step s) ≡ field key (s.hashes (job job_id))
  claimed-field key job_id step s a b = ap (get_or "") (
      get-put_all_other key (("status", "dispatched") ∷ ("dispatch_ts", iso step) ∷ [])
        (s.hashes (job job_id)) (a, (b, tt)))

  -- How the backend answers the job's payload, when four commands have been sent.
  abbrev pub backend_answer : String → World → Forwarded
  backend_answer job_id w =
      wk.forward (suc (suc (suc (suc w.step)))) (payload_of wk (w.keys.hashes (job job_id)))

  documented_turn :
      (rounds : ℕ) (score : ℤ) (job_id : String) (rest : Zset) (w : World)
      → w.keys.zsets (queue wk.model) ≡ (score, job_id) ∷ rest
      → wk.stopped (suc w.step) ≡ false
      → has_room wk.model w.keys ≡ true
      → IsPriority wk (field "priority" (w.keys.hashes (job job_id)))
      → Finished wk job_id rest
          (backend_answer job_id w)
          w.keys
          (run_once (suc rounds) (calm documented iso ns sha) wk w).1.keys
  documented_turn rounds score job_id rest w queued going room reads =
      let read = claimed-field "priority" job_id (suc w.step) w.keys refl refl in
      let payload = claimed-field "payload_json" job_id (suc w.step) w.keys refl refl in
      let served_f =
        answer_at iso ns sha wk (suc (suc w.step))
          (claimed_hash iso ns sha wk job_id (suc w.step) w.keys) in
      let same : served_f ≡ backend_answer job_id w =
        ap
          (λ t.
            wk.forward (suc (suc (suc (suc w.step))))
              (let stored = or_text t "{}" in if wk.is_json stored then stored else "{}"))
          payload in
      let claimed_reads : IsPriority wk
          (field "priority" (claimed_hash iso ns sha wk job_id (suc w.step) w.keys)) =
        subst (IsPriority wk) (sym read) reads in
      let turn =
        run_once-served iso ns sha wk rounds score job_id rest w queued going room claimed_reads in
      subst
        (λ f.
          Finished wk job_id rest f w.keys
            (run_once (suc rounds) (calm documented iso ns sha) wk w).1.keys)
        same
        (subst (Finished wk job_id rest served_f w.keys) (sym turn)
          (served-Finished job_id w.step score rest served_f w.keys queued))

-- The turn of a worker whose queue is not empty, if Redis does as documented, answers every command and serves no other
-- client meanwhile, the worker is not stopped, a slot is free and the priority of the job is empty or a number: however
-- the backend answers the payload of the job, the job ends with the status of that answer, the model has as many slots
-- in use as before, the lease and the entry of the job are gone, the other jobs stay queued, and the caller is told.
pub run_once-Finished :
    (srv : Server) (iso : ℕ → String) (ns : ℕ → ℕ) (sha : String → String) (wk : Worker)
    (rounds : ℕ) (score : ℤ) (job_id : String) (rest : Zset) (w : World)
    → IsRedis srv
    → w.keys.zsets (queue wk.model) ≡ (score, job_id) ∷ rest
    → wk.stopped (suc w.step) ≡ false
    → has_room wk.model w.keys ≡ true
    → IsPriority wk (field "priority" (w.keys.hashes (job job_id)))
    → Finished wk job_id rest
        (backend_answer iso ns sha wk job_id w)
        w.keys
        (run_once (suc rounds) (calm srv iso ns sha) wk w).1.keys
run_once-Finished srv iso ns sha wk rounds score job_id rest w redis queued going room reads =
    subst
      (λ r.
        Finished wk job_id rest (backend_answer iso ns sha wk job_id w) w.keys
          (run_once (suc rounds) (calm r iso ns sha) wk w).1.keys)
      (sym (IsRedis-eq redis))
      (documented_turn iso ns sha wk rounds score job_id rest w queued going room reads)

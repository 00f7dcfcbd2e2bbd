-- ===== src/Scripts/Atomic.antt =====
-- What each script does, on every branch.
use talki_llm_admission_sche.Base.{
  ℕ, ◌≡◌, refl, inl, inr, Bool, true, false, Option, none, some, [], ◌∷◌, String, arith, length,
  if◌then◌else◌, Option-cases, Bool-cases, All,
}
use talki_llm_admission_sche.Base.Int.{ℤ, pos, ◌+ℤ◌, ltb_ℤ, leb_ℤ}
use talki_llm_admission_sche.Keys.{slots_in_use, slots_capacity, queue, job, update}
use talki_llm_admission_sche.Redis.{
  Server, Script, IsRedis, IsRedis-eq, documented, Keyspace, get_or, Fields,
}
use talki_llm_admission_sche.Redis.Hash
use talki_llm_admission_sche.Redis.Zset
use talki_llm_admission_sche.Redis.Zset.{Zset}
use talki_llm_admission_sche.Scripts.{claim_slot, cancel_queued, enqueue_job, join_nul, flat}
use talki_llm_admission_sche.Keys.Equality.{update_self}
use talki_llm_admission_sche.Scripts.Joined.{IsPlainField, pairs-join_nul}

-- claim_slot on a model's keys.
abbrev pub claim : Server → String → String → String → Script ℕ
claim srv model job_id ts = claim_slot (slots_in_use model) (slots_capacity model) job_id ts srv

abbrev pub in_use : String → Keyspace → ℤ
in_use model s = get_or (pos 0) (s.counters (slots_in_use model))

-- The data after a claim that succeeds: one more slot, and the job is dispatched.
abbrev pub claimed : String → String → String → Keyspace → Keyspace
claimed model job_id ts s = record s {
  counters = update s.counters (slots_in_use model) (some (in_use model s +ℤ pos 1));
  hashes =
      update s.hashes (job job_id) (
        Hash.put_all (("status", "dispatched") ∷ ("dispatch_ts", ts) ∷ []) (s.hashes (job job_id)));
}

-- Whether a slot is free: a capacity is set, and fewer slots are in use.
abbrev below : ℤ → Option ℤ → Bool
below n none = false
below n (some c) = ltb_ℤ n c

abbrev pub has_room : String → Keyspace → Bool
has_room model s = below (in_use model s) (s.counters (slots_capacity model))

-- claim_slot takes a slot and marks the job dispatched if a slot is free, and else changes nothing.
-- The server does as documented.
pub claim_lem :
    (srv : Server) (model job_id ts : String) (s : Keyspace)
    → IsRedis srv
    → claim srv model job_id ts s
      ≡ (if has_room model s then (some 1, claimed model job_id ts s) else (some 0, s))
unfolding claim_slot
claim_lem srv model job_id ts s r =
    rw (IsRedis-eq r) (elim (Option-cases (s.counters (slots_capacity model))) [
      | inl e ↦ rw e
      | inr (c, e) ↦ rw e (ground arith)
    ])

-- cancel_queued on a job of a model's queue.
abbrev pub cancel : Server → String → String → String → Script ℕ
cancel srv model job_id ts = cancel_queued (queue model) (job job_id) job_id ts srv

abbrev pub withdrawn : String → String → String → Keyspace → Keyspace
withdrawn model job_id ts s = record s {
  zsets = update s.zsets (queue model) (Zset.remove job_id (s.zsets (queue model)));
  hashes =
      update s.hashes (job job_id)
        (Hash.put_all (("status", "cancelled") ∷ ("complete_ts", ts) ∷ []) (s.hashes (job job_id)));
}

has-remove : (m : String) (z : Zset) → Zset.has m z ≡ false → Zset.remove m z ≡ z
has-remove m [] h = refl
has-remove m ((x, n) ∷ z) h = ground (arith, has-remove m z)

-- cancel_queued takes a job off the queue and marks it cancelled if the job is queued, and else
-- changes nothing. The server does as documented.
pub cancel_lem :
    (srv : Server) (model job_id ts : String) (s : Keyspace)
    → IsRedis srv
    → cancel srv model job_id ts s ≡ (
        if Zset.has job_id (s.zsets (queue model))
        then (some 1, withdrawn model job_id ts s)
        else (some 0, s))
unfolding cancel_queued
cancel_lem srv model job_id ts s r =
    rw (IsRedis-eq r) (elim (Bool-cases (Zset.has job_id (s.zsets (queue model)))) [
      | inl e ↦ rw e
      | inr e ↦ rw (e, has-remove job_id _ e, update_self s.zsets (queue model))
    ])

-- enqueue_job on a model's queue, with the fields of the job as the client joins them.
abbrev pub enqueue : Server → String → String → ℤ → ℤ → Fields → Script ℕ
enqueue srv model job_id score max_depth fields =
    enqueue_job (queue model) (job job_id) job_id score max_depth (join_nul (flat fields)) srv

abbrev pub depth : String → Keyspace → ℕ
depth model s = length (s.zsets (queue model))

abbrev pub enqueued : String → String → ℤ → Fields → Keyspace → Keyspace
enqueued model job_id score fields s = record s {
  zsets = update s.zsets (queue model) (Zset.add score job_id (s.zsets (queue model)));
  hashes = update s.hashes (job job_id) (Hash.put_all fields (s.hashes (job job_id)));
}

-- A queue at its depth takes no job, whatever the text of the fields is.
pub enqueue_full :
    (model job_id : String) (score max_depth : ℤ) (flat_str : String) (s : Keyspace)
    → leb_ℤ max_depth (pos (depth model s)) ≡ true
    → enqueue_job (queue model) (job job_id) job_id score max_depth flat_str documented s
      ≡ (some 0, s)
unfolding enqueue_job
enqueue_full model job_id score max_depth flat_str s full = rw full

-- enqueue_job changes nothing if the queue is at its depth, and else puts the job on the queue and
-- writes exactly the given fields, none of which is empty or holds a NUL.
-- There is at least one field, and the server does as documented.
pub enqueue_lem :
    (srv : Server) (model job_id : String) (score max_depth : ℤ) (f v : String) (fields : Fields)
    (s : Keyspace)
    → IsRedis srv
    → All IsPlainField ((f, v) ∷ fields)
    → enqueue srv model job_id score max_depth ((f, v) ∷ fields) s ≡ (
        if leb_ℤ max_depth (pos (depth model s))
        then (some 0, s)
        else (some 1, enqueued model job_id score ((f, v) ∷ fields) s))
unfolding enqueue_job
enqueue_lem srv model job_id score max_depth f v fields s r plain =
    rw (IsRedis-eq r) (elim (Bool-cases (leb_ℤ max_depth (pos (depth model s)))) [
      | inl e ↦ rw e
      | inr e ↦ rw (e, pairs-join_nul f v fields plain)
    ])

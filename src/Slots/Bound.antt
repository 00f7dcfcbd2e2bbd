-- ===== src/Slots/Bound.antt =====
-- The bound itself, and what keeps it.
use talki_llm_admission_sche.Base.{
  ℕ, ◌≡◌, String, [], ◌∷◌, some, arith, true, refl, eq_iff, eq_refl, str_eq, Bool-cases, inl, inr,
}
use talki_llm_admission_sche.Base.Int.{ℤ, ◌≤ℤ◌, ◌<ℤ◌, pos, negsuc, +ℤ_parts}
use talki_llm_admission_sche.Keys.{Key, slots_in_use, slots_capacity, inflight, lease}
use talki_llm_admission_sche.Redis.{
  Keyspace, documented, run_all, effect, decr, zrem, delete, hset, expire, Fields, has_key,
}
use mathlib.Core.Path.{subst}
use talki_llm_admission_sche.Scripts.Atomic.{in_use, has_room, claim, claimed, claim_lem}

-- The capacity of the model is `c`, and no more slots are in use.
abbrev pub InBound : String → ℤ → Keyspace → Type 0
InBound model c s = (s.counters (slots_capacity model) ≡ some c) × (in_use model s ≤ℤ c)

module _ (model : String) (c : ℤ) where
  -- A release of a slot of any model.
  pub decr-InBound :
      (m : String) (s : Keyspace)
      → InBound model c s
      → InBound model c (effect (decr (slots_in_use m)) s)
  decr-InBound m s h = elim (Bool-cases (str_eq model m)) [
    | inl e ↦ ground (arith, eq_iff model m, +ℤ_parts (in_use model s) (negsuc 0))
    | inr e ↦ (h.0, rw e h.1)
  ]

  pub released :
      (m job_id : String) (s : Keyspace)
      → InBound model c s
      → InBound model c (
          run_all documented
            (decr (slots_in_use m) ∷ zrem (inflight m) job_id ∷ delete (lease job_id) ∷ [])
            s)
  released m job_id s h = decr-InBound m s h

  -- A claim for this model takes a slot only below the capacity.
  claimed_own :
      (j ts : String) (s : Keyspace)
      → InBound model c s
      → has_room model s ≡ true
      → InBound model c (claimed model j ts s)
  claimed_own j ts s h room =
      let free : in_use model s <ℤ c = ground arith in
      (h.0, rw (eq_refl model) (omega (arith, +ℤ_parts (in_use model s) (pos 1))))

  claimed-InBound :
      (m j ts : String) (s : Keyspace)
      → InBound model c s
      → has_room m s ≡ true
      → InBound model c (claimed m j ts s)
  claimed-InBound m j ts s h room = elim (Bool-cases (str_eq model m)) [
    | inl e ↦
        let same = (eq_iff model m).0 e in
        subst (λ k. InBound model c (claimed k j ts s)) same (claimed_own j ts s h (rw same room))
    | inr e ↦ (h.0, rw e h.1)
  ]

  pub claim-InBound :
      (m j ts : String) (s : Keyspace)
      → InBound model c s
      → InBound model c (claim documented m j ts s).1
  claim-InBound m j ts s h =
      rw (claim_lem documented m j ts s (λ _ _. refl)) (elim (Bool-cases (has_room m s)) [
        | inl e ↦ rw e (claimed-InBound m j ts s h e)
        | inr e ↦ rw e h
      ])

  -- A write to a hash with its time to live touches no counter.
  pub hset_expire-InBound :
      (k : Key) (fields : Fields) (n : ℕ) (s : Keyspace)
      → InBound model c s
      → InBound model c (run_all documented (hset k fields ∷ expire k n ∷ []) s)
  hset_expire-InBound k fields n s h = elim (Bool-cases (has_key k (effect (hset k fields) s))) [
    | inl e ↦ rw e h
    | inr e ↦ rw e h
  ]

  pub unchanged-InBound : (s : Keyspace) → InBound model c s → InBound model c s
  unchanged-InBound s h = h

-- ===== src/Startup/Bound.antt =====
-- The start (app/main.py) and the bound on slots.
use talki_llm_admission_sche.Base.{
  ℕ, ◌≡◌, refl, false, List, [], ◌∷◌, ◌++◌, String, str_eq, eq_refl, All, Option-cases, inl, inr,
}
use talki_llm_admission_sche.Base.Int.{ℤ, pos, ◌≤ℤ◌}
use talki_llm_admission_sche.Config.{ModelConfig}
use talki_llm_admission_sche.Keys.{slots_in_use, slots_capacity}
use talki_llm_admission_sche.Redis.{
  World, Keyspace, Server, IsRedis, IsRedis-eq, documented, calm, effect, set_number, setnx,
}
use talki_llm_admission_sche.Scripts.Atomic.{in_use}
use talki_llm_admission_sche.Metrics.{update_slot_gauges}
use talki_llm_admission_sche.Startup.{start_slots}
use talki_llm_admission_sche.Slots.Bound.{InBound}

-- The entry is for another model.
abbrev pub IsOther : String → String × ModelConfig → Type 0
IsOther model (name, c) = str_eq model name ≡ false

abbrev started : String → ℤ → Keyspace → Keyspace
started name n s =
    effect (setnx (slots_in_use name) (pos 0)) (effect (set_number (slots_capacity name) n) s)

started_other :
    (model name : String) (c n : ℤ) (s : Keyspace)
    → str_eq model name ≡ false
    → InBound model c s
    → InBound model c (started name n s)
started_other model name c n s other h = elim (Option-cases (s.counters (slots_in_use name))) [
  | inl e ↦ rw e (rw other h)
  | inr (k, e) ↦ rw e (rw other h)
]

started_own :
    (model : String) (c : ℤ) (s : Keyspace)
    → pos 0 ≤ℤ c
    → in_use model s ≤ℤ c
    → InBound model c (started model c s)
started_own model c s free h = elim (Option-cases (s.counters (slots_in_use model))) [
  | inl e ↦ rw e (rw (eq_refl model) (refl, free))
  | inr (k, e) ↦ rw e (rw (eq_refl model) (refl, h))
]

started_use :
    (model name : String) (n : ℤ) (s : Keyspace)
    → str_eq model name ≡ false
    → in_use model (started name n s) ≡ in_use model s
started_use model name n s other = elim (Option-cases (s.counters (slots_in_use name))) [
  | inl e ↦ rw e (rw other refl)
  | inr (k, e) ↦ rw e refl
]

module _ (srv : Server) (iso : ℕ → String) (ns : ℕ → ℕ) (sha : String → String) where
  others_kept :
      (model : String) (c : ℤ) (post : List (String × ModelConfig)) (w : World)
      → All (IsOther model) post
      → InBound model c w.keys
      → InBound model c (start_slots (calm documented iso ns sha) post w).1.keys
  unfolding start_slots update_slot_gauges
  others_kept model c [] w o h = h
  others_kept model c ((name, k) ∷ post) w o h =
      others_kept model c post _ o.1 (started_other model name c k.max_concurrency w.keys o.0 h)

  start_here :
      (model : String) (cfg : ModelConfig) (pre post : List (String × ModelConfig)) (w : World)
      → pos 0 ≤ℤ cfg.max_concurrency
      → All (IsOther model) pre
      → All (IsOther model) post
      → in_use model w.keys ≤ℤ cfg.max_concurrency
      → InBound model cfg.max_concurrency
          (start_slots (calm documented iso ns sha) (pre ++ ((model, cfg) ∷ post)) w).1.keys
  unfolding start_slots update_slot_gauges
  start_here model cfg [] post w free a b h =
      others_kept model cfg.max_concurrency post _ b
        (started_own model cfg.max_concurrency w.keys free h)
  start_here model cfg ((name, k) ∷ pre) post w free a b h =
      start_here model cfg pre post _ free a.1 b
        (rw (started_use model name k.max_concurrency w.keys a.0) h)

  -- The start sets the capacity of each configured model and leaves the model within it, if no more
  -- slots are counted in use before. A model has one entry in the configuration and a capacity that is
  -- not negative, the server does as documented, every command succeeds and no other client is at
  -- work.
  pub start_slots-InBound :
      (model : String) (cfg : ModelConfig) (pre post : List (String × ModelConfig)) (w : World)
      → IsRedis srv
      → pos 0 ≤ℤ cfg.max_concurrency
      → All (IsOther model) pre
      → All (IsOther model) post
      → in_use model w.keys ≤ℤ cfg.max_concurrency
      → InBound model cfg.max_concurrency
          (start_slots (calm srv iso ns sha) (pre ++ ((model, cfg) ∷ post)) w).1.keys
  start_slots-InBound model cfg pre post w redis free a b h =
      rw (IsRedis-eq redis) (start_here model cfg pre post w free a b h)

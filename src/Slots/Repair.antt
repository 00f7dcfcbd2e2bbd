-- ===== src/Slots/Repair.antt =====
-- The integrity check (app/core/integrity.py) and the bound on slots.
use mathlib.Core.Path.{subst}
use talki_llm_admission_sche.Base.{
  ℕ, ◌≡◌, String, List, [], ◌∷◌, Option, none, some, Bool, true, false, refl, str_eq, eq_iff,
  Bool-cases, inl, inr, arith,
}
use talki_llm_admission_sche.Base.Int.{ℤ, pos, ◌≤ℤ◌, ◌+ℤ◌, ltb_ℤ, +ℤ_parts}
use talki_llm_admission_sche.Config.{AppConfig, ModelConfig, all_model_names}
use talki_llm_admission_sche.Keys.{slots_in_use, inflight}
use talki_llm_admission_sche.Redis.{
  Env, IsRedis, World, Keyspace, effect, execute, pure, ◌>>=◌, get_or, zcard, get_number,
  set_number, validation_error,
}
use talki_llm_admission_sche.Redis.Keeps.{
  Keeps, OthersKeep, on_documented, env_path, keeps, bind-Keeps, pure-Keeps, then-Keeps,
  raise-Keeps, execute-Keeps, try_any-Keeps,
}
use talki_llm_admission_sche.Redis.Ensures.{
  Ensures, IfSome, bind-Ensures, execute-Ensures, pure-Ensures, chain-Ensures, any-Ensures,
  try-Ensures,
}
use talki_llm_admission_sche.Python.{counting_errors}
use talki_llm_admission_sche.Python.Keeps.{counting_errors-Keeps, record_redis_error-Keeps}
use talki_llm_admission_sche.Metrics.{update_slot_gauges, update_queue_depth}
use talki_llm_admission_sche.Integrity.{
  gauge_slots, update_gauges, after_reset, reconcile, with_counts, check_model, check_models,
  check_all_models,
}
use talki_llm_admission_sche.Scripts.Atomic.{in_use}
use talki_llm_admission_sche.Slots.Bound.{InBound}

module _ (model : String) (c : ℤ) (env : Env) (others : OthersKeep (InBound model c) env) where
  gauge_slots-Keeps :
      (m : String) (n : ℤ) (o : Option ModelConfig) → Keeps (InBound model c) (gauge_slots m n o)
  unfolding gauge_slots update_slot_gauges
  gauge_slots-Keeps m n none = raise-Keeps validation_error
  gauge_slots-Keeps m n (some k) = search keeps

  update_gauges-Keeps :
      (config : AppConfig) (m : String) (n : ℤ)
      → Keeps (InBound model c) (update_gauges (on_documented env) config m n)
  unfolding update_gauges update_queue_depth
  update_gauges-Keeps config m n = search (keeps, gauge_slots-Keeps) depth 8

  -- What is known of a counter that was read: it is within the capacity, if it is the model's.
  abbrev IsWithin : String → ℤ → Type 0
  IsWithin m n = str_eq model m ≡ true → n ≤ℤ c

  set_number-InBound :
      (m : String) (n : ℤ) (s : Keyspace)
      → IsWithin m n
      → InBound model c s
      → InBound model c (effect (set_number (slots_in_use m) n) s)
  set_number-InBound m n s within h = elim (Bool-cases (str_eq model m)) [
    | inl e ↦ (h.0, rw e (within e))
    | inr e ↦ (h.0, rw e h.1)
  ]

  after_reset-Keeps :
      (config : AppConfig) (m : String) (a r : ℤ) (o : Option (Unit {0}))
      → Keeps (InBound model c) (after_reset (on_documented env) config m a r o)
  unfolding after_reset
  after_reset-Keeps config m a r none = pure-Keeps tt
  after_reset-Keeps config m a r (some _) = search (keeps, update_gauges-Keeps) depth 8

  reconcile-Keeps :
      (config : AppConfig) (m : String) (a r : ℤ) (b : Bool)
      → (b ≡ true → IsWithin m a)
      → Keeps (InBound model c) (reconcile (on_documented env) config m a r b)
  unfolding reconcile
  reconcile-Keeps config m a r false h = update_gauges-Keeps config m a
  reconcile-Keeps config m a r true h =
      bind-Keeps
        (counting_errors-Keeps "integrity_write" (
          execute-Keeps env (set_number (slots_in_use m) a) others
            (λ s. set_number-InBound m a s (h refl))))
        (λ o. after_reset-Keeps config m a r o)

  lower : (a : ℕ) (r : ℤ) → ltb_ℤ (pos a +ℤ pos 2) r ≡ true → r ≤ℤ c → pos a ≤ℤ c
  lower a r h k = ground (arith, +ℤ_parts (pos a) (pos 2))

  abbrev CountsWithin : String → ℕ × Option ℤ → Type 0
  CountsWithin m (a, r) = IsWithin m (get_or (pos 0) r)

  with_counts-Keeps :
      (config : AppConfig) (m : String) (o : Option (ℕ × Option ℤ))
      → IfSome (CountsWithin m) o
      → Keeps (InBound model c) (with_counts (on_documented env) config m o)
  unfolding with_counts
  with_counts-Keeps config m none h = pure-Keeps tt
  with_counts-Keeps config m (some (a, r)) h =
      reconcile-Keeps config m (pos a) (get_or (pos 0) r) _
        (λ drifted same. lower a (get_or (pos 0) r) drifted (h same))

  read_counts :
      (m : String)
      → Ensures (InBound model c) (IfSome (CountsWithin m)) (
          counting_errors "integrity_read" (do
            actual ← execute (on_documented env) (zcard (inflight m))
            recorded ← execute (on_documented env) (get_number (slots_in_use m))
            pure (actual, recorded)))
  unfolding counting_errors
  read_counts m =
      try-Ensures
        (chain-Ensures
          (chain-Ensures (any-Ensures (execute-Keeps env (zcard (inflight m)) others (λ s h. h)))
            (λ actual _.
              chain-Ensures {Q = λ r. IsWithin m (get_or (pos 0) r)}
                (execute-Ensures env (get_number (slots_in_use m))
                  (λ r. IsWithin m (get_or (pos 0) r)) others (λ s h. h)
                  (λ s h e. subst (λ k. in_use k s ≤ℤ c) ((eq_iff model m).0 e) h.1))
                (λ recorded q. pure-Ensures (actual, recorded) q)))
          (λ p q. pure-Ensures (some p) q))
        (chain-Ensures (any-Ensures (record_redis_error-Keeps "integrity_read"))
          (λ _ _. pure-Ensures none tt))

  check_model-Keeps :
      (config : AppConfig) (m : String)
      → Keeps (InBound model c) (check_model (on_documented env) config m)
  unfolding check_model
  check_model-Keeps config m = bind-Ensures (read_counts m) (with_counts-Keeps config m)

  check_models-Keeps :
      (config : AppConfig) (ms : List String)
      → Keeps (InBound model c) (check_models (on_documented env) config ms)
  unfolding check_models
  check_models-Keeps config [] = pure-Keeps tt
  check_models-Keeps config (m ∷ ms) =
      then-Keeps (check_model-Keeps config m) (check_models-Keeps config ms)

  check_all_models-Keeps :
      (config : AppConfig) → Keeps (InBound model c) (check_all_models (on_documented env) config)
  unfolding check_all_models
  check_all_models-Keeps config =
      try_any-Keeps (check_models-Keeps config (all_model_names config.models))
        (record_redis_error-Keeps "integrity_check")

-- A pass of the integrity check over all models leaves a model within its capacity, if it finds it
-- so: the number that it writes is below a number that the counter held. This holds whatever
-- commands fail and whatever the other clients do between two commands, if the server does as
-- documented and they keep the bound.
pub check_all_models-InBound :
    (model : String) (c : ℤ) (env : Env) (config : AppConfig) (w : World)
    → IsRedis env.srv
    → OthersKeep (InBound model c) env
    → InBound model c w.keys
    → InBound model c (check_all_models env config w).1.keys
check_all_models-InBound model c env config w redis others h =
    subst (λ e. InBound model c (check_all_models e config w).1.keys) (env_path redis)
      ((check_all_models-Keeps model c env others config).run w h)

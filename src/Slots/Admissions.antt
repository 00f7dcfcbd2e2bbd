-- ===== src/Slots/Admissions.antt =====
-- Submissions (app/core/admission.py) and the bound on slots.
use mathlib.Core.Path.{subst}
use Prim.Native.String.{◌++◌}
use talki_llm_admission_sche.Base.{
  ℕ, ◌≡◌, refl, sym, Bool-cases, inl, inr, Option, none, some, String,
}
use talki_llm_admission_sche.Base.Int.{ℤ, pos, leb_ℤ, ◌≤ℤ◌}
use talki_llm_admission_sche.Config.{AppConfig}
use talki_llm_admission_sche.Keys.{Key, queue, job, idem, slots_in_use, slots_capacity}
use talki_llm_admission_sche.Redis.{
  Env, IsRedis, World, Keyspace, Fields, documented, effect, get_or, set_text_nx, zadd, is_some,
}
use talki_llm_admission_sche.Redis.Keeps.{OthersKeep, env_path}
use talki_llm_admission_sche.Scripts.{
  enqueue_job, enqueue_below, hset_parts, pairs, drop_empty, tokens, nul_text,
}
use talki_llm_admission_sche.Scripts.Atomic.{depth}
use talki_llm_admission_sche.Admission.{Submission, admit}
use talki_llm_admission_sche.Admission.Writes.{admit-Keeps}
use talki_llm_admission_sche.Slots.Bound.{InBound}

parts_counters :
    (k : Key) (parts : Option Fields) (s : Keyspace)
    → (hset_parts documented k parts s).1.counters ≡ s.counters
unfolding hset_parts
parts_counters k none s = refl
parts_counters k (some fields) s = refl

enqueue_counters :
    (m j : String) (x max_depth : ℤ) (flat_str : String) (s : Keyspace)
    → (enqueue_job (queue m) (job j) j x max_depth flat_str documented s).1.counters ≡ s.counters
unfolding enqueue_job enqueue_below
enqueue_counters m j x max_depth flat_str s =
    elim (Bool-cases (leb_ℤ max_depth (pos (depth m s)))) [
      | inl e ↦ rw e refl
      | inr e ↦ rw e (
          parts_counters (job j) (pairs (drop_empty (tokens (flat_str ++ nul_text))))
            (effect (zadd (queue m) x j) s))
    ]

module _ (model : String) (c : ℤ) where
  enqueue-InBound :
      (m j : String) (x max_depth : ℤ) (flat_str : String) (s : Keyspace)
      → InBound model c s
      → InBound model c (enqueue_job (queue m) (job j) j x max_depth flat_str documented s).1
  enqueue-InBound m j x max_depth flat_str s h =
      subst
        (λ f. (f (slots_capacity model) ≡ some c) × (get_or (pos 0) (f (slots_in_use model)) ≤ℤ c))
        (sym (enqueue_counters m j x max_depth flat_str s)) h

  set_text_nx-InBound :
      (key t : String) (n : ℕ) (s : Keyspace)
      → InBound model c s
      → InBound model c (effect (set_text_nx (idem key) t n) s)
  set_text_nx-InBound key t n s h = elim (Bool-cases (is_some (s.strings (idem key)))) [
    | inl e ↦ rw e h
    | inr e ↦ rw e h
  ]

-- A submission leaves a model within its capacity, if it finds it so: it takes no slot.
pub admit-InBound :
    (model : String) (c : ℤ) (env : Env) (config : AppConfig) (r : Submission) (w : World)
    → IsRedis env.srv
    → OthersKeep (InBound model c) env
    → InBound model c w.keys
    → InBound model c (admit env config r w).1.keys
admit-InBound model c env config r w redis others h =
    subst (λ e. InBound model c (admit e config r w).1.keys) (env_path redis)
      ((admit-Keeps (InBound model c) env others (set_text_nx-InBound model c) (λ m s h. h) config r
          (λ mc e x flat_str s h.
            enqueue-InBound model c r.model r.job_id x mc.max_queue_depth flat_str s h)).run
        w h)

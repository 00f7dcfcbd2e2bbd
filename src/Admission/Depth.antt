-- ===== src/Admission/Depth.antt =====
-- A submission and the depth of the queues.
use mathlib.Core.Path.{subst}
use talki_llm_admission_sche.Base.{
  ℕ, ◌≡◌, refl, sym, false, Bool-cases, inl, inr, Option, none, some, String, str_eq, eq_iff,
  eq_refl, arith, length,
}
use talki_llm_admission_sche.Base.Int.{ℤ, pos, ◌≤ℤ◌, leb_ℤ}
use Prim.Native.String.{◌++◌}
use talki_llm_admission_sche.Config.{AppConfig, ModelConfig, model_config_for}
use talki_llm_admission_sche.Keys.{Key, update, queue, job, idem}
use talki_llm_admission_sche.Redis.{
  Env, IsRedis, World, Keyspace, Fields, documented, set_text_nx, zadd, effect, is_some,
}
use talki_llm_admission_sche.Redis.Keeps.{OthersKeep, env_path}
use talki_llm_admission_sche.Redis.Size.{length-add}
use talki_llm_admission_sche.Redis.Zset
use talki_llm_admission_sche.Scripts.{
  enqueue_job, enqueue_below, hset_parts, tokens, drop_empty, pairs, nul_text,
}
use talki_llm_admission_sche.Scripts.Atomic.{depth, enqueue_full}
use talki_llm_admission_sche.Admission.Writes.{admit-Keeps}
use talki_llm_admission_sche.Admission.{Submission, admit}

-- No more jobs are queued for the model than `d`.
abbrev pub Shallow : String → ℤ → Keyspace → Type 0
Shallow model d s = pos (depth model s) ≤ℤ d

parts_zsets :
    (k : Key) (parts : Option Fields) (s : Keyspace)
    → (hset_parts documented k parts s).1.zsets ≡ s.zsets
unfolding hset_parts
parts_zsets k none s = refl
parts_zsets k (some fields) s = refl

-- A script that finds room adds the job, whatever it makes of the fields.
enqueued_zsets :
    (m j : String) (x max_depth : ℤ) (flat_str : String) (s : Keyspace)
    → leb_ℤ max_depth (pos (depth m s)) ≡ false
    → (enqueue_job (queue m) (job j) j x max_depth flat_str documented s).1.zsets
      ≡ update s.zsets (queue m) (Zset.add x j (s.zsets (queue m)))
unfolding enqueue_job enqueue_below
enqueued_zsets m j x max_depth flat_str s e = rw e (
    parts_zsets (job j) (pairs (drop_empty (tokens (flat_str ++ nul_text))))
      (effect (zadd (queue m) x j) s))

module _ (model : String) (d : ℤ) where
  -- Where there is room, the model's own queue gets no deeper than it may be.
  added_own :
      (j : String) (x max_depth : ℤ) (s : Keyspace)
      → max_depth ≡ d
      → leb_ℤ max_depth (pos (depth model s)) ≡ false
      → pos (
          length
            (update s.zsets (queue model) (Zset.add x j (s.zsets (queue model))) (queue model)))
        ≤ℤ d
  added_own j x max_depth s same e =
      let room : leb_ℤ d (pos (depth model s)) ≡ false = rw (sym same) e in
      rw (eq_refl model) (ground (arith, room, length-add x j (s.zsets (queue model))))

  added :
      (m j : String) (x max_depth : ℤ) (s : Keyspace)
      → (m ≡ model → max_depth ≡ d)
      → leb_ℤ max_depth (pos (depth m s)) ≡ false
      → Shallow model d s
      → pos (length (update s.zsets (queue m) (Zset.add x j (s.zsets (queue m))) (queue model)))
        ≤ℤ d
  added m j x max_depth s same e h = elim (Bool-cases (str_eq model m)) [
    | inl t ↦
        let eq = (eq_iff model m).0 t in
        subst
          (λ k.
            pos (length (update s.zsets (queue k) (Zset.add x j (s.zsets (queue k))) (queue model)))
            ≤ℤ d)
          eq (added_own j x max_depth s (same (sym eq)) (rw eq e))
    | inr t ↦ rw t h
  ]

  enqueue-Shallow :
      (m j : String) (x max_depth : ℤ) (flat_str : String) (s : Keyspace)
      → (m ≡ model → max_depth ≡ d)
      → Shallow model d s
      → Shallow model d (enqueue_job (queue m) (job j) j x max_depth flat_str documented s).1
  enqueue-Shallow m j x max_depth flat_str s same h =
      elim (Bool-cases (leb_ℤ max_depth (pos (depth m s)))) [
        | inl e ↦ rw (enqueue_full m j x max_depth flat_str s e) h
        | inr e ↦
            subst (λ z. pos (length (z (queue model))) ≤ℤ d)
              (sym (enqueued_zsets m j x max_depth flat_str s e)) (added m j x max_depth s same e h)
      ]

  set_text_nx-Shallow :
      (key t : String) (n : ℕ) (s : Keyspace)
      → Shallow model d s
      → Shallow model d (effect (set_text_nx (idem key) t n) s)
  set_text_nx-Shallow key t n s h = elim (Bool-cases (is_some (s.strings (idem key)))) [
    | inl e ↦ rw e h
    | inr e ↦ rw e h
  ]

-- A submission, for whatever model and whether it is accepted, rejected, a repetition or fails at any
-- command, leaves the queue of a model no deeper than the model's max_queue_depth, if it finds it so and
-- the other clients keep it so. The server does as documented.
pub admit-Shallow :
    (config : AppConfig) (model : String) (mc : ModelConfig) (env : Env) (r : Submission)
    (w : World)
    → model_config_for config model ≡ some mc
    → IsRedis env.srv
    → OthersKeep (Shallow model mc.max_queue_depth) env
    → Shallow model mc.max_queue_depth w.keys
    → Shallow model mc.max_queue_depth (admit env config r w).1.keys
admit-Shallow config model mc env r w configured redis others h =
    let d = mc.max_queue_depth in
    let same : (c : ModelConfig)
        → model_config_for config r.model ≡ some c
        → r.model ≡ model
        → c.max_queue_depth ≡ d =
      λ c e eq. cc (e, eq, configured) in
    subst (λ e. Shallow model d (admit e config r w).1.keys) (env_path redis)
      ((admit-Keeps (Shallow model d) env others (set_text_nx-Shallow model d) (λ m s h. h) config r
          (λ c e x flat_str s h.
            enqueue-Shallow model d r.model r.job_id x c.max_queue_depth flat_str s (same c e)
              h)).run
        w h)

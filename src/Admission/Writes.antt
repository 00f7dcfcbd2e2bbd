-- ===== src/Admission/Writes.antt =====
-- What a submission keeps, by what its commands that write keep.
use talki_llm_admission_sche.Base.{
  ℕ, ◌≡◌, refl, Bool-cases, inl, inr, Option, none, some, String, ◌==◌,
}
use talki_llm_admission_sche.Base.Int.{ℤ}
use talki_llm_admission_sche.Config.{AppConfig, ModelConfig, model_config_for}
use talki_llm_admission_sche.Keys.{queue, job, idem, seq}
use talki_llm_admission_sche.Redis.{
  Env, Keyspace, documented, ◌>>=◌, get_text, incr, set_text_nx, effect,
}
use talki_llm_admission_sche.Redis.Keeps.{
  Keeps, OthersKeep, on_documented, keeps, evalsha-Keeps, bind-Keeps, pure-Keeps, execute-Keeps,
  iso_now-Keeps, time_ns-Keeps,
}
use talki_llm_admission_sche.Scripts.{join_nul, enqueue_job, evalsha_enqueue_job, flat}
use talki_llm_admission_sche.Metrics.{record_admission}
use talki_llm_admission_sche.EventLog.{Event, emit}
use talki_llm_admission_sche.State.{JobRequest}
use talki_llm_admission_sche.Admission.{
  Submission, given, effective_priority, config_or_raise, find_existing, answer_hit, job_request,
  job_fields, reject, record_key, accept, finish, submit, admit_checked, admit, score,
}

module _ (P : Keyspace → Type 0) (env : Env) (others : OthersKeep P env)
    (records : (key t : String) (n : ℕ) (s : Keyspace)
      → P s
      → P (effect (set_text_nx (idem key) t n) s))
    (counts : (m : String) (s : Keyspace) → P s → P (effect (incr (seq m)) s)) where
  unchanged : (s : Keyspace) → P s → P s
  unchanged s h = h

  find_existing-Keeps : (key : Option String) → Keeps P (find_existing (on_documented env) key)
  unfolding find_existing
  find_existing-Keeps none = pure-Keeps none
  find_existing-Keeps (some key) =
      execute-Keeps env (get_text (idem (env.sha256 key))) others (λ s h. h)

  answer_hit-Keeps : (r : Submission) (jid : String) → Keeps P (answer_hit r jid)
  unfolding answer_hit record_admission
  answer_hit-Keeps r jid = search keeps

  emit-Keeps : (event : String → Event) → Keeps P (emit (on_documented env) event)
  unfolding emit
  emit-Keeps event = search keeps

  reject-Keeps :
      (c : ModelConfig) (r : Submission) (q : JobRequest)
      → Keeps P (reject (on_documented env) c r q)
  unfolding reject record_admission
  reject-Keeps c r q = search (keeps, unchanged, emit-Keeps) depth 10

  record_key-Keeps :
      (r : Submission) (key : Option String) → Keeps P (record_key (on_documented env) r key)
  unfolding record_key
  record_key-Keeps r none = pure-Keeps tt
  record_key-Keeps r (some key) =
      execute-Keeps env (set_text_nx (idem (env.sha256 key)) r.job_id 86400) others
        (records (env.sha256 key) r.job_id 86400)

  accept-Keeps : (r : Submission) (q : JobRequest) → Keeps P (accept (on_documented env) r q)
  unfolding accept record_admission
  accept-Keeps r q = search (keeps, record_key-Keeps, unchanged, emit-Keeps) depth 12

  finish-Keeps :
      (c : ModelConfig) (r : Submission) (q : JobRequest) (n : ℕ)
      → Keeps P (finish (on_documented env) c r q n)
  unfolding finish
  finish-Keeps c r q n = elim (Bool-cases (n == 0)) [
    | inl e ↦ rw e (reject-Keeps c r q)
    | inr e ↦ rw e (accept-Keeps r q)
  ]

  -- What a submission for a configuration asks of the script that queues its job.
  abbrev Queues : ModelConfig → Submission → Type 0
  Queues c r =
      (x : ℤ) (flat_str : String) (s : Keyspace)
      → P s
      → P
          (enqueue_job (queue r.model) (job r.job_id) r.job_id x c.max_queue_depth flat_str
            documented s).1

  submit-Keeps :
      (c : ModelConfig) (r : Submission) → Queues c r → Keeps P (submit (on_documented env) c r)
  unfolding submit evalsha_enqueue_job
  submit-Keeps c r queues = bind-Keeps (time_ns-Keeps (on_documented env)) λ created.
      bind-Keeps (execute-Keeps env (incr (seq r.model)) others (counts r.model)) λ seq_no.
        bind-Keeps (time_ns-Keeps (on_documented env)) λ enqueue_ns.
          bind-Keeps (iso_now-Keeps (on_documented env)) λ enqueue_ts.
            let x = score (effective_priority r.priority c) enqueue_ns seq_no in
            let flat_str =
              join_nul (flat (job_fields r (effective_priority r.priority c) enqueue_ts)) in
            bind-Keeps
              (evalsha-Keeps env
                (enqueue_job (queue r.model) (job r.job_id) r.job_id x c.max_queue_depth flat_str)
                others (queues x flat_str))
              (finish-Keeps c r (job_request r (effective_priority r.priority c) created))

  admit_checked-Keeps :
      (c : ModelConfig) (r : Submission) (existing : Option String)
      → Queues c r
      → Keeps P (admit_checked (on_documented env) c r existing)
  unfolding admit_checked
  admit_checked-Keeps c r none queues = submit-Keeps c r queues
  admit_checked-Keeps c r (some jid) queues = answer_hit-Keeps r jid

  admit_configured-Keeps :
      (r : Submission) (o : Option ModelConfig)
      → ((c : ModelConfig) → o ≡ some c → Queues c r)
      → Keeps P (
          config_or_raise o >>= λ c.
          find_existing (on_documented env) (given r.idempotency_key) >>= λ existing.
          admit_checked (on_documented env) c r existing)
  unfolding config_or_raise
  admit_configured-Keeps r none queues = record { run = λ w h. h }
  admit_configured-Keeps r (some c) queues =
      bind-Keeps (find_existing-Keeps (given r.idempotency_key))
        λ existing. admit_checked-Keeps c r existing (queues c refl)

  pub admit-Keeps :
      (config : AppConfig) (r : Submission)
      → ((c : ModelConfig) → model_config_for config r.model ≡ some c → Queues c r)
      → Keeps P (admit (on_documented env) config r)
  unfolding admit
  admit-Keeps config r queues = admit_configured-Keeps r (model_config_for config r.model) queues

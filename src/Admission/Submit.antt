-- ===== src/Admission/Submit.antt =====
-- What one call of `submit` does when every command succeeds and no other client is at work.
use talki_llm_admission_sche.Base.{
  ℕ, suc, ◌≡◌, refl, true, false, Option, none, some, [], ◌∷◌, String, arith, All,
}
use talki_llm_admission_sche.Base.Int.{ℤ, pos, leb_ℤ, ◌+ℤ◌}
use talki_llm_admission_sche.Base.Decimal.{str}
use talki_llm_admission_sche.State.{AdmissionResult, JobStatus, AdmissionOutcome}
use talki_llm_admission_sche.Config.{ModelConfig}
use talki_llm_admission_sche.Keys.{queue, idem, seq}
use talki_llm_admission_sche.Redis.{
  documented, Keyspace, Fields, World, Env, ok, calm, get_or, effect, set_text_nx, incr,
}
use talki_llm_admission_sche.Redis.Zset
use talki_llm_admission_sche.Scripts.{evalsha_enqueue_job, flat, join_nul}
use talki_llm_admission_sche.Scripts.Joined.{IsPlain, IsPlainField}
use talki_llm_admission_sche.Scripts.Plain.{plain, str-IsPlain}
use talki_llm_admission_sche.Scripts.Atomic.{depth, enqueued, enqueue_lem, enqueue_full}
use talki_llm_admission_sche.Admission.Score.{score, estimate_drain}
use talki_llm_admission_sche.Admission.Controller.{
  Submission, submit, given, effective_priority, job_fields, job_request,
}

-- The job id that the idempotency key of a submission is recorded with.
abbrev pub recorded : (String → String) → Option String → Keyspace → Option String
recorded sha none s = none
recorded sha (some key) s = s.strings (idem (sha key))

abbrev pub hit : String → AdmissionOutcome
hit jid = record {
  result = AdmissionResult.idempotent_hit;
  job_id = jid;
  status = JobStatus.queued;
  position_in_queue = none;
  existing_job_id = some jid;
  estimated_drain_s = none;
}

abbrev pub refused : Submission → ModelConfig → ℕ → AdmissionOutcome
refused r c queue_depth = record {
  result = AdmissionResult.rejected;
  job_id = r.job_id;
  status = JobStatus.rejected;
  position_in_queue = none;
  existing_job_id = none;
  estimated_drain_s = some (pos (estimate_drain queue_depth c.max_concurrency));
}

abbrev pub accepted : Submission → Option ℕ → AdmissionOutcome
accepted r position = record {
  result = AdmissionResult.queued;
  job_id = r.job_id;
  status = JobStatus.queued;
  position_in_queue = some (get_or 0 position);
  existing_job_id = none;
  estimated_drain_s = none;
}

-- The record of an idempotency key, if one was given.
abbrev pub key_kept : (String → String) → Option String → String → Keyspace → Keyspace
key_kept sha none job_id s = s
key_kept sha (some key) job_id s = effect (set_text_nx (idem (sha key)) job_id 86400) s

-- The step at which `submit` begins: the lookup of a key is one command.
abbrev pub looked_up : Option String → ℕ → ℕ
looked_up none n = n
looked_up (some key) n = suc n

-- No text of a submission is empty or has a NUL.
pub record IsPlainSubmission (r : Submission) : Type 0 where
  pub model_plain : IsPlain r.model
  pub caller_plain : IsPlain r.caller
  pub request_id_plain : IsPlain r.request_id

abbrev rest_fields : Submission → ℤ → String → Fields
rest_fields r p ts =
    ("status", "queued")
    ∷ ("priority", str p)
    ∷ ("enqueue_ts", ts)
    ∷ ("caller", r.caller)
    ∷ ("request_id", r.request_id)
    ∷ []

job_fields-plain :
    (r : Submission) (p : ℤ) (ts : String)
    → IsPlainSubmission r
    → IsPlain ts
    → All IsPlainField (job_fields r p ts)
job_fields-plain r p ts h t = (
  (plain "model" refl, h.model_plain),
  (
    (plain "status" refl, plain "queued" refl),
    (
      (plain "priority" refl, str-IsPlain p),
      (
        (plain "enqueue_ts" refl, t),
        (
          (plain "caller" refl, h.caller_plain),
          ((plain "request_id" refl, h.request_id_plain), tt),
        ),
      ),
    ),
  ),
)

module _ (iso : ℕ → String) (ns : ℕ → ℕ) (sha : String → String) where
  abbrev pub here : Env
  here = calm documented iso ns sha

  -- The text of the fields, and the score, that `submit` sends at a step.
  abbrev pub sent_score : ModelConfig → Submission → World → ℤ
  sent_score c r w =
      score (effective_priority r.priority c) (ns (suc w.step))
        (get_or (pos 0) (w.keys.counters (seq r.model)) +ℤ pos 1)

  abbrev pub sent_text : ModelConfig → Submission → World → String
  sent_text c r w =
      join_nul (flat (job_fields r (effective_priority r.priority c) (iso (suc w.step))))

  pub submit_full :
      (c : ModelConfig) (r : Submission) (w : World)
      → leb_ℤ c.max_queue_depth (pos (depth r.model w.keys)) ≡ true
      → let (o, w') = submit here c r w in
        (o
          ≡ ok (
            refused r c (depth r.model w.keys),
            some (job_request r (effective_priority r.priority c) (ns w.step)),
          ))
        × (w'.keys ≡ effect (incr (seq r.model)) w.keys)
  unfolding submit evalsha_enqueue_job
  submit_full c r w full = ground (
    arith,
    enqueue_full r.model r.job_id (sent_score c r w) c.max_queue_depth (sent_text c r w)
        (effect (incr (seq r.model)) w.keys) full,
  )

  pub submit-accepted :
      (c : ModelConfig) (r : Submission) (w : World)
      → IsPlainSubmission r
      → IsPlain (iso (suc w.step))
      → leb_ℤ c.max_queue_depth (pos (depth r.model w.keys)) ≡ false
      → let (o, w') = submit here c r w in
        (o
          ≡ ok (
            accepted r (Zset.rank r.job_id (w'.keys.zsets (queue r.model))),
            some (job_request r (effective_priority r.priority c) (ns w.step)),
          ))
        × (w'.keys
            ≡ key_kept sha (given r.idempotency_key) r.job_id (
                enqueued r.model r.job_id
                  (sent_score c r w)
                  (job_fields r (effective_priority r.priority c) (iso (suc w.step)))
                  (effect (incr (seq r.model)) w.keys)))
  unfolding submit evalsha_enqueue_job
  submit-accepted c r w texts ts room =
      let p = effective_priority r.priority c in
      let s = effect (incr (seq r.model)) w.keys in
      let sent =
        enqueue_lem documented r.model r.job_id (sent_score c r w) c.max_queue_depth "model" r.model
          (rest_fields r p (iso (suc w.step))) s (λ _ _. refl)
          (job_fields-plain r p (iso (suc w.step)) texts ts) in
      ground (arith, sent)

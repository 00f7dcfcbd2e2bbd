-- ===== src/Admission/Outcomes.antt =====
-- What one call of `admit` does when every command succeeds and no other client is at work.
use talki_llm_admission_sche.Base.{
  ℕ, suc, ◌≡◌, ◌≢◌, refl, inl, inr, true, false, Option, none, some, String, arith, Option-cases,
  eq_refl,
}
use talki_llm_admission_sche.Base.Int.{pos, leb_ℤ}
use talki_llm_admission_sche.State.{JobRequest}
use talki_llm_admission_sche.Config.{AppConfig, ModelConfig, model_config_for}
use talki_llm_admission_sche.Keys.{queue, idem, seq}
use talki_llm_admission_sche.Redis.{
  Server, IsRedis, IsRedis-eq, Keyspace, World, ok, calm, effect, incr,
}
use talki_llm_admission_sche.Redis.Zset
use talki_llm_admission_sche.Scripts.Joined.{IsPlain}
use talki_llm_admission_sche.Scripts.Atomic.{depth, enqueued}
use talki_llm_admission_sche.Admission.Controller.{
  Submission, admit, submit, given, effective_priority, job_fields, job_request,
}
use talki_llm_admission_sche.Admission.Submit.{
  recorded, hit, refused, accepted, key_kept, looked_up, IsPlainSubmission, sent_score, submit_full,
  submit-accepted, here,
}

module _ (srv : Server) (iso : ℕ → String) (ns : ℕ → ℕ) (sha : String → String) where
  -- A submission for a model with a configuration whose idempotency key is recorded is answered
  -- with the recorded job and changes nothing in Redis. The server does as documented, every
  -- command succeeds and no other client is at work.
  pub admit-hit :
      (config : AppConfig) (r : Submission) (c : ModelConfig) (jid : String) (w : World)
      → IsRedis srv
      → model_config_for config r.model ≡ some c
      → recorded sha (given r.idempotency_key) w.keys ≡ some jid
      → let (o, w') = admit (calm srv iso ns sha) config r w in
        (o ≡ ok (hit jid, none)) × (w'.keys ≡ w.keys)
  unfolding admit
  admit-hit config r c jid w redis known stored = rw (IsRedis-eq redis) (
      rw known (elim (Option-cases (given r.idempotency_key)) [
        | inl e ↦ absurd (ground arith)
        | inr (key, e) ↦ rw e (ground arith)
      ]))

  -- With no recorded key, `admit` is `submit` after the lookup of the key.
  admit_new :
      (config : AppConfig) (r : Submission) (c : ModelConfig) (w : World)
      → model_config_for config r.model ≡ some c
      → recorded sha (given r.idempotency_key) w.keys ≡ none
      → admit (here iso ns sha) config r w
        ≡ submit
            (here iso ns sha)
            c
            r
            (record w { step = looked_up (given r.idempotency_key) w.step })
  unfolding admit
  admit_new config r c w known new = rw known (elim (Option-cases (given r.idempotency_key)) [
    | inl e ↦ ground arith
    | inr (key, e) ↦ ground arith
  ])

  -- A submission whose key is not recorded, to a full queue, is rejected with an estimate of the
  -- drain time. In Redis nothing but the sequence number of the model changes. The model has a
  -- configuration, the server does as documented, every command succeeds and no other client is at
  -- work.
  pub admit_full :
      (config : AppConfig) (r : Submission) (c : ModelConfig) (w : World)
      → IsRedis srv
      → model_config_for config r.model ≡ some c
      → recorded sha (given r.idempotency_key) w.keys ≡ none
      → leb_ℤ c.max_queue_depth (pos (depth r.model w.keys)) ≡ true
      → let (o, w') = admit (calm srv iso ns sha) config r w in
        (q : JobRequest) × (o ≡ ok (refused r c (depth r.model w.keys), some q))
        × (w'.keys ≡ effect (incr (seq r.model)) w.keys)
  admit_full config r c w redis known new full =
      let v = record w { step = looked_up (given r.idempotency_key) w.step } in
      let (o, keys) = submit_full iso ns sha c r v full in
      rw (IsRedis-eq redis) (
        rw (admit_new config r c w known new)
          (job_request r (effective_priority r.priority c) (ns v.step), o, keys))

  -- A submission whose key is not recorded, to a queue with room, is answered with its job id and
  -- its position. In Redis the sequence number of the model goes up, the job stands in the queue at
  -- its score and in its hash with the status "queued", the key is recorded if one was given, and
  -- nothing else changes. No text of the submission is empty or has a NUL, the model has a
  -- configuration, the server does as documented, every command succeeds and no other client is at
  -- work.
  pub admit_accepts :
      (config : AppConfig) (r : Submission) (c : ModelConfig) (w : World)
      → IsRedis srv
      → model_config_for config r.model ≡ some c
      → recorded sha (given r.idempotency_key) w.keys ≡ none
      → leb_ℤ c.max_queue_depth (pos (depth r.model w.keys)) ≡ false
      → IsPlainSubmission r
      → IsPlain (iso (suc (looked_up (given r.idempotency_key) w.step)))
      → let (o, w') = admit (calm srv iso ns sha) config r w in
        let v = record w { step = looked_up (given r.idempotency_key) w.step } in
        (q : JobRequest) × (o
          ≡ ok (accepted r (Zset.rank r.job_id (w'.keys.zsets (queue r.model))), some q))
        × (w'.keys
            ≡ key_kept sha (given r.idempotency_key) r.job_id (
                enqueued r.model r.job_id
                  (sent_score iso ns sha c r v)
                  (job_fields r (effective_priority r.priority c) (iso (suc v.step)))
                  (effect (incr (seq r.model)) w.keys)))
  admit_accepts config r c w redis known new room texts ts =
      let v = record w { step = looked_up (given r.idempotency_key) w.step } in
      let (o, keys) = submit-accepted iso ns sha c r v texts ts room in
      rw (IsRedis-eq redis) (
        rw (admit_new config r c w known new)
          (job_request r (effective_priority r.priority c) (ns v.step), o, keys))

  -- A key that is recorded when it has no entry is found.
  recorded-key_kept :
      (key : Option String) (jid : String) (s t : Keyspace)
      → key ≢ none
      → recorded sha key t ≡ none
      → s.strings ≡ t.strings
      → recorded sha key (key_kept sha key jid s) ≡ some jid
  recorded-key_kept none jid s t h new same = absurd (h refl)
  recorded-key_kept (some k) jid s t h new same =
      let absent : s.strings (idem (sha k)) ≡ none = rw same new in
      rw absent (ground (arith, eq_refl (sha k)))

  -- A submission that was accepted and is then repeated with its idempotency key, whatever else it
  -- holds, is answered with the job of the first one, and the repetition changes nothing in Redis.
  -- The first has no recorded key, finds room, and has no text that is empty or holds a NUL; both
  -- models have a configuration, the server does as documented, every command succeeds and no other
  -- client is at work.
  pub admit_retry :
      (config : AppConfig) (r r' : Submission) (c c' : ModelConfig) (w : World)
      → IsRedis srv
      → model_config_for config r.model ≡ some c
      → model_config_for config r'.model ≡ some c'
      → given r.idempotency_key ≢ none
      → r'.idempotency_key ≡ r.idempotency_key
      → recorded sha (given r.idempotency_key) w.keys ≡ none
      → leb_ℤ c.max_queue_depth (pos (depth r.model w.keys)) ≡ false
      → IsPlainSubmission r
      → IsPlain (iso (suc (looked_up (given r.idempotency_key) w.step)))
      → let (o, w') = admit (calm srv iso ns sha) config r w in
        let (o', w'') = admit (calm srv iso ns sha) config r' w' in
        (o' ≡ ok (hit r.job_id, none)) × (w''.keys ≡ w'.keys)
  admit_retry config r r' c c' w redis known known' has_key same new room texts ts =
      let (q, o, keys) = admit_accepts config r c w redis known new room texts ts in
      let w' = (admit (calm srv iso ns sha) config r w).1 in
      admit-hit config r' c' r.job_id w' redis known' (
        rw (same, keys)
          (recorded-key_kept (given r.idempotency_key) r.job_id _ w.keys has_key new refl))

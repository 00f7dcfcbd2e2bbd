-- ===== src/Tests/AdmissionTests.antt =====
-- Admission at concrete inputs.
use Prim.Native.String.{◌++◌}
use talki_llm_admission_sche.Base.{◌+◌, ◌*◌, ◌^◌, ◌≡◌, refl, none, some, String, arith}
use talki_llm_admission_sche.Base.Int.{pos, ◌≤ℤ◌, ◌<ℤ◌, ◌+ℤ◌, ◌*ℤ◌}
use talki_llm_admission_sche.State.{JobRequest}
use talki_llm_admission_sche.Config.{model_config_for, priority_in_range}
use talki_llm_admission_sche.Keys.{queue, seq}
use talki_llm_admission_sche.Redis.{documented, ok, calm, effect, incr}
use talki_llm_admission_sche.Redis.Zset
use talki_llm_admission_sche.Scripts.Atomic.{enqueued}
use talki_llm_admission_sche.Admission.{score, admit, submit, job_fields, job_request}
use talki_llm_admission_sche.Admission.Order.{
  score_tiers, score_exact, score_fifo, score_wraps, score_seq_inverts,
}
use talki_llm_admission_sche.Admission.Submit.{
  hit, refused, accepted, key_kept, sent_score, IsPlainSubmission,
}
use talki_llm_admission_sche.Admission.Depth.{Shallow, admit-Shallow}
use talki_llm_admission_sche.Scripts.Plain.{plain}
use talki_llm_admission_sche.Scripts.{
  evalsha_enqueue_job, enqueue_job, join_nul, flat, tokens, drop_empty, pairs,
}
use talki_llm_admission_sche.Base.Decimal.{str}
use talki_llm_admission_sche.Admission.Outcomes.{admit_full, admit_accepts, admit_retry}
use talki_llm_admission_sche.Tests.Data.{
  code_config, config, submission, booted, crowded, world, iso, ns,
}

abbrev sha : String → String
sha s = "#" ++ s

score_tiers_example : score (pos 3) 999999999999 (pos 999) <ℤ score (pos 5) 0 (pos 1)
unfolding priority_in_range
score_tiers_example =
    score_tiers (pos 3) (pos 5) 999999999999 0 (pos 999) (pos 1) refl refl (omega arith)

score_exact_example :
    (pos 0 ≤ℤ score (pos 9) 999999999999 (pos 999))
    × (score (pos 9) 999999999999 (pos 999) <ℤ pos (2 ^ 53))
unfolding priority_in_range
score_exact_example = score_exact (pos 9) 999999999999 (pos 999) refl

score_fifo_example :
    score (pos 3) (7 * 1000000000000 + 5) (pos 4)
    <ℤ score (pos 3) (7 * 1000000000000 + 1005) (pos 5)
score_fifo_example =
    score_fifo (pos 3) 7 5 1005 (pos 4) (pos 5) (omega arith) (omega arith) (omega arith)

score_wraps_example :
    score (pos 3) (8 * 1000000000000 + 0) (pos 5)
    <ℤ score (pos 3) (7 * 1000000000000 + 999000000000) (pos 4)
score_wraps_example =
    score_wraps (pos 3) 7 999000000000 0 (pos 4) (pos 5) (omega arith) (omega arith)

score_seq_inverts_example : score (pos 3) 8 (pos 1000) <ℤ score (pos 3) 7 (pos 999)
score_seq_inverts_example =
    score_seq_inverts (pos 3) 7 (pos 999) (pos 1000) (omega arith) (omega arith)

admit_full_example :
    let (o, w') = admit (calm documented iso ns sha) config submission (world crowded) in
    (q : JobRequest) × (o ≡ ok (refused submission code_config 2, some q))
    × (w'.keys ≡ effect (incr (seq "code")) crowded)
unfolding model_config_for
admit_full_example =
    admit_full documented iso ns sha config submission code_config (world crowded) (λ _ _. refl)
      refl refl refl

abbrev plain_submission : IsPlainSubmission submission
plain_submission = record {
  model_plain = plain "code" refl;
  caller_plain = plain "dev-agent" refl;
  request_id_plain = plain "r1" refl;
}

admit_accepts_example :
    let (o, w') = admit (calm documented iso ns sha) config submission (world booted) in
    (q : JobRequest) × (o
      ≡ ok (accepted submission (Zset.rank "j1" (w'.keys.zsets (queue "code"))), some q))
    × (w'.keys
        ≡ key_kept sha (some "k1") "j1" (
            enqueued "code" "j1"
              (sent_score iso ns sha code_config submission (record (world booted) { step = 1 }))
              (job_fields submission (pos 3) "2026-05-26T09:12:03")
              (effect (incr (seq "code")) booted)))
unfolding model_config_for
admit_accepts_example =
    admit_accepts documented iso ns sha config submission code_config (world booted) (λ _ _. refl)
      refl refl refl plain_submission (plain "2026-05-26T09:12:03" refl)

admit_retry_example :
    let (o, w') = admit (calm documented iso ns sha) config submission (world booted) in
    let (o', w'') = admit (calm documented iso ns sha) config submission w' in
    (o' ≡ ok (hit "j1", none)) × (w''.keys ≡ w'.keys)
unfolding model_config_for
admit_retry_example =
    admit_retry documented iso ns sha config submission submission code_config code_config
      (world booted) (λ _ _. refl) refl refl (λ e. cc) refl refl refl plain_submission
      (plain "2026-05-26T09:12:03" refl)

-- The job stands first in the queue.
admit_run :
    (admit (calm documented iso ns sha) config submission (world booted)).0
    ≡ ok (accepted submission (some 0), some (job_request submission (pos 3) 1779786723000000001))
unfolding admit submit evalsha_enqueue_job enqueue_job model_config_for join_nul flat tokens
    drop_empty pairs str score ◌+ℤ◌ ◌*ℤ◌
admit_run = refl

-- The queue is at its depth of two.
admit-Shallow_example :
    Shallow "code"
      (pos 2)
      (admit (calm documented iso ns sha) config submission (world crowded)).1.keys
unfolding model_config_for
admit-Shallow_example =
    admit-Shallow config "code" code_config (calm documented iso ns sha) submission (world crowded)
      refl (λ _ _. refl) (λ n s h. h) (omega arith)

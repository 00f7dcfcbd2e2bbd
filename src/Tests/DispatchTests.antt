-- ===== src/Tests/DispatchTests.antt =====
-- A turn of the dispatcher at concrete inputs.
use talki_llm_admission_sche.Base.{
  ◌==◌, String, true, false, none, some, inr, refl, [], ◌∷◌, ◌≡◌, arith,
}
use talki_llm_admission_sche.Base.Int.{pos}
use talki_llm_admission_sche.Config.{model_config_for}
use talki_llm_admission_sche.Keys.{queue, job, update}
use talki_llm_admission_sche.Redis.{Keyspace, calm, documented}
use talki_llm_admission_sche.Scripts.Plain.{plain}
use talki_llm_admission_sche.Admission.{admit}
use talki_llm_admission_sche.Admission.Submit.{IsPlainSubmission}
use talki_llm_admission_sche.Dispatcher.{Worker, run_once, timeout_exception}
use talki_llm_admission_sche.Dispatcher.Outcome.{Finished, run_once-Finished}
use talki_llm_admission_sche.Dispatcher.Admitted.{admitted-Finished, run_once_stopped}
use talki_llm_admission_sche.Tests.Data.{
  code_config, config, submission, booted, crowded, full, world, iso, ns,
}

abbrev sha : String → String
sha t = t

-- The worker of the model `code`, whose backend times out.
abbrev worker : Worker
worker = record {
  model = "code";
  model_cfg = code_config;
  worker_id = "w0";
  stopped = λ n. false;
  forward = λ n payload. timeout_exception "too late";
  parse_int = λ t. some (pos 3);
  parse_iso = λ t. none;
  is_json = λ t. true;
}

-- Of the job that is first in the queue.
abbrev waiting_job : Keyspace
waiting_job = record crowded {
  hashes = update (λ _. []) (job "a") (("status", "queued") ∷ ("priority", "3") ∷ []);
}

plain_submission : IsPlainSubmission submission
plain_submission = record {
  model_plain = plain "code" refl;
  caller_plain = plain "dev-agent" refl;
  request_id_plain = plain "r1" refl;
}

run_once-Finished_example :
    Finished worker "a"
      ((pos 6, "b") ∷ [])
      (timeout_exception "too late")
      waiting_job
      (run_once 1 (calm documented iso ns sha) worker (world waiting_job)).1.keys
run_once-Finished_example =
    run_once-Finished documented iso ns sha worker 0 (pos 5) "a" ((pos 6, "b") ∷ [])
      (world waiting_job) (λ c s. refl) refl refl refl (inr (refl, pos 3, refl))

admitted-Finished_example :
    let w' = (admit (calm documented iso ns sha) config submission (world booted)).1 in
    Finished worker "j1" []
      (timeout_exception "too late")
      w'.keys
      (run_once 1 (calm documented iso ns sha) worker w').1.keys
unfolding model_config_for
admitted-Finished_example =
    admitted-Finished documented iso ns sha config submission code_config worker 0 (world booted)
      (λ c s. refl) refl refl refl plain_submission (plain "2026-05-26T09:12:03" refl) refl refl
      refl refl (λ n. refl) refl

-- Two jobs are queued and both slots are in use.
abbrev busy : Keyspace
busy = record waiting_job { counters = full.counters }

-- The worker is stopped when it has taken a job and waited for one round.
abbrev stopping_worker : Worker
stopping_worker = record worker { stopped = λ n. n == 2 }

run_once_stopped_example :
    let t = (run_once 3 (calm documented iso ns sha) stopping_worker (world busy)).1.keys in
    (t.zsets (queue "code") ≡ (pos 6, "b") ∷ [])
    × (t ≡ record busy { zsets = update busy.zsets (queue "code") ((pos 6, "b") ∷ []) })
run_once_stopped_example =
    run_once_stopped documented iso ns sha stopping_worker 2 1 (pos 5) "a" ((pos 6, "b") ∷ [])
      (world busy) (λ c s. refl) refl (omega arith) refl (λ _. refl)

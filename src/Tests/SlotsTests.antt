-- ===== src/Tests/SlotsTests.antt =====
-- The scripts and the background tasks at concrete inputs.
use talki_llm_admission_sche.Base.{
  ℕ, false, leb, Bool-cases, inl, inr, List, All, ◌≡◌, ◌==◌, refl, true, none, some, [], ◌∷◌, arith,
  if◌then◌else◌,
}
use talki_llm_admission_sche.Base.Int.{pos, leb_ℤ}
use talki_llm_admission_sche.Keys.{queue}
use talki_llm_admission_sche.Redis.{ok, Env, Keyspace, documented, calm}
use talki_llm_admission_sche.Redis.Zset
use talki_llm_admission_sche.Scripts.Plain.{plain}
use talki_llm_admission_sche.Scripts.Atomic.{
  claim, claimed, has_room, claim_lem, cancel, withdrawn, cancel_lem, enqueue, enqueued, depth,
  enqueue_lem,
}
use talki_llm_admission_sche.Dispatcher.Progress.{claim_loop_claims}
use talki_llm_admission_sche.Dispatcher.{
  Worker, claim_loop, claimed as got_slot, run, timeout_exception,
}
use talki_llm_admission_sche.Slots.Bound.{InBound}
use talki_llm_admission_sche.Api.Jobs.{cancel_job}
use talki_llm_admission_sche.Slots.System.{
  IsPast, Recalls, begins, goes_on, History, dispatches, cancels, history-InBound,
}
use talki_llm_admission_sche.Tests.Data.{code_config, config, booted, full, crowded, world, iso, ns}

claim_lem_example : claim documented "code" "j1" "t" booted ≡ (
    if has_room "code" booted then (some 1, claimed "code" "j1" "t" booted) else (some 0, booted))
claim_lem_example = claim_lem documented "code" "j1" "t" booted (λ _ _. refl)

cancel_lem_example : cancel documented "code" "a" "t" crowded ≡ (
    if Zset.has "a" (crowded.zsets (queue "code"))
    then (some 1, withdrawn "code" "a" "t" crowded)
    else (some 0, crowded))
cancel_lem_example = cancel_lem documented "code" "a" "t" crowded (λ _ _. refl)

enqueue_lem_example :
    enqueue documented "code" "j1" (pos 7) (pos 2) (("model", "code") ∷ []) booted ≡ (
      if leb_ℤ (pos 2) (pos (depth "code" booted))
      then (some 0, booted)
      else (some 1, enqueued "code" "j1" (pos 7) (("model", "code") ∷ []) booted))
enqueue_lem_example =
    enqueue_lem documented "code" "j1" (pos 7) (pos 2) "model" "code" [] booted (λ _ _. refl)
      ((plain "model" refl, plain "code" refl), tt)

-- Redis fails at the sixth command.
abbrev faulty : Env
faulty = record (calm documented iso ns (λ s. s)) { down = λ n. n == 5 }

-- The worker of the model `code`, whose backend times out.
abbrev worker : Worker
worker = record {
  model = "code";
  model_cfg = code_config;
  worker_id = "w0";
  stopped = λ n. n == 40;
  forward = λ _ _. timeout_exception "late";
  parse_int = λ _. none;
  parse_iso = λ _. none;
  is_json = λ _. true;
}

-- Both slots are in use until the other clients free one, from the fourth command on.
abbrev freeing : Env
freeing = record (calm documented iso ns (λ s. s)) { others = λ n s. if leb 3 n then booted else s }

abbrev patient : Worker
patient = record worker { stopped = λ n. false }

claim_loop_claims_example : (claim_loop 4 freeing patient "a" (world full)).0 ≡ ok got_slot
claim_loop_claims_example =
    claim_loop_claims 4 3 freeing patient "a" (world full) (λ _ _. refl) (λ k. refl) (λ k. refl)
      (λ k s h. let e : leb 3 k ≡ true = ground (arith, h) in rw e refl) (omega arith) (omega arith)

-- Up to the command `cut`, and with the state `t` found before the command `gap`.
abbrev up_to : ℕ → ℕ → Keyspace → Env
up_to cut gap t = record (calm documented iso ns (λ s. s)) {
  down = λ n. leb cut n;
  others = λ n s. if n == gap then t else s;
}

up_to-Recalls :
    (past : List Keyspace) (cut gap : ℕ) (t : Keyspace)
    → IsPast past t
    → Recalls past (up_to cut gap t)
up_to-Recalls past cut gap t there k = elim (Bool-cases (k == gap)) [
  | inl e ↦ inr (t, there, λ s. rw e refl)
  | inr e ↦ inl (λ s. rw e refl)
]

-- A dispatcher begins, then a cancellation begins, the dispatcher goes on, and the cancellation ends.
abbrev dispatcher_begins : Keyspace
dispatcher_begins = (run 1 1 (up_to 2 0 crowded) worker (world crowded)).1.keys

abbrev cancellation_begins : Keyspace
cancellation_begins = (cancel_job (up_to 1 0 dispatcher_begins) "a" (world crowded)).1.keys

abbrev dispatcher_goes_on : Keyspace
dispatcher_goes_on = (run 1 1 (up_to 3 2 cancellation_begins) worker (world crowded)).1.keys

abbrev cancellation_ends : Keyspace
cancellation_ends = (cancel_job (up_to 9 1 dispatcher_goes_on) "a" (world crowded)).1.keys

abbrev past : List Keyspace
past = dispatcher_goes_on ∷ cancellation_begins ∷ dispatcher_begins ∷ crowded ∷ []

interleaved : History config (cancellation_ends ∷ past)
interleaved =
    goes_on
      (goes_on
        (goes_on
          (goes_on (begins crowded) (
            dispatches (up_to 2 0 crowded) 1 1 worker (world crowded) (λ _ _. refl)
              (up_to-Recalls (crowded ∷ []) 2 0 crowded (inl refl)) (inl refl)))
          (cancels (up_to 1 0 dispatcher_begins) "a" (world crowded) (λ _ _. refl)
            (up_to-Recalls (dispatcher_begins ∷ crowded ∷ []) 1 0 dispatcher_begins (inl refl))
            (inr (inl refl))))
        (dispatches (up_to 3 2 cancellation_begins) 1 1 worker (world crowded) (λ _ _. refl)
          (up_to-Recalls (cancellation_begins ∷ dispatcher_begins ∷ crowded ∷ []) 3 2
            cancellation_begins (inl refl))
          (inr (inr (inl refl)))))
      (cancels (up_to 9 1 dispatcher_goes_on) "a" (world crowded) (λ _ _. refl)
        (up_to-Recalls past 9 1 dispatcher_goes_on (inl refl)) (inr (inr (inr (inl refl)))))

history-InBound_example : All (InBound "code" (pos 2)) (cancellation_ends ∷ past)
history-InBound_example =
    history-InBound config "code" (pos 2) past cancellation_ends interleaved (refl, omega arith)

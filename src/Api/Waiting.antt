-- ===== src/Api/Waiting.antt =====
-- How long a request waits for its job.
use talki_llm_admission_sche.Base.{
  ℕ, zero, suc, ◌+◌, ◌<◌, leb, ◌≡◌, refl, Bool, true, false, Option, none, some, String, Bool-cases,
  inl, inr, arith, ap, sym, ◌∙◌,
}
use talki_llm_admission_sche.Keys.{job}
use talki_llm_admission_sche.Redis.{
  Env, M, World, Outcome, ok, raised, execute, Command, hget, ◌>>=◌,
}
use talki_llm_admission_sche.Api.Jobs.{is_terminal}
use talki_llm_admission_sche.Api.Completion.{
  Listener, Waited, listening, wait_loop, by_status, by_message,
}

-- Whether the wait is over: with a status, at the deadline or with an exception.
abbrev pub is_over : Outcome Waited → Bool
is_over (ok listening) = false
is_over _ = true

-- A coroutine that ends the wait, whenever it is started after `step` commands.
abbrev EndsAt : ℕ → M Waited → Type 0
EndsAt step m = (w : World) → w.step ≡ step → is_over (m w).0 ≡ true

status_ends :
    (again : M Waited) (o : Option String) (step : ℕ)
    → EndsAt step again
    → EndsAt step (by_status again o)
status_ends again none step h = h
status_ends again (some status) step h =
    λ w e. elim (Bool-cases (is_terminal status)) [ inl t ↦ rw t refl | inr t ↦ rw t (h w e) ]

step-execute : (env : Env) (c : Command) (w : World) → (execute env c w).1.step ≡ suc w.step
step-execute env c w = elim (Bool-cases (env.down w.step)) [ inl d ↦ rw d refl | inr d ↦ rw d refl ]

message_ends :
    (env : Env) (j : String) (again : M Waited) (o : Option String) (step : ℕ)
    → EndsAt (suc step) again
    → EndsAt step (by_message env j again o)
message_ends env j again (some status) step h = λ w e. refl
message_ends env j again none step h = λ w e. elim (Bool-cases (env.down w.step)) [
  | inl d ↦ rw (d, is_over) refl
  | inr d ↦
      let ask = hget (job j) "status" in
      let r = (env.srv ask (env.others w.step w.keys)).0 in
      rw (d, is_over)
        (status_ends again r (suc step) h (execute env ask w).1 (step-execute env ask w ∙ ap suc e))
]

got_ends :
    (env : Env) (j : String) (again : M Waited) (r : Outcome (Option String)) (w : World)
    → EndsAt (suc w.step) again
    → is_over (((λ v. (r, v)) >>= by_message env j again) w).0 ≡ true
got_ends env j again (raised e) w h = refl
got_ends env j again (ok o) w h = message_ends env j again o w.step h w refl

-- A request stops waiting: if the clock is at the deadline when `n` more commands have been sent,
-- then more than `n` rounds of the loop end the wait, with a status, at the deadline or with an
-- exception, whatever commands fail, whatever messages come and whatever the other clients do.
pub wait_loop_ends :
    (rounds n : ℕ) (env : Env) (heard : Listener) (j : String) (deadline : ℕ) (w : World)
    → n < rounds
    → leb deadline (heard.monotonic (w.step + n)) ≡ true
    → is_over (wait_loop rounds env heard j deadline w).0 ≡ true
unfolding wait_loop
wait_loop_ends zero n env heard j deadline w h late = absurd (omega (arith, h))
wait_loop_ends (suc rounds) zero env heard j deadline w h late =
    let now : w.step + 0 ≡ w.step = omega arith in
    let past : leb deadline (heard.monotonic w.step) ≡ true = rw (sym now) late in rw past refl
wait_loop_ends (suc rounds) (suc n) env heard j deadline w h late =
    elim (Bool-cases (leb deadline (heard.monotonic w.step))) [
      | inl e ↦ rw e refl
      | inr e ↦ rw e (
          got_ends env j (wait_loop rounds env heard j deadline) (heard.get_message w.step) w
            (λ v k.
              let same : v.step + n ≡ w.step + suc n = omega (arith, k) in
              wait_loop_ends rounds n env heard j deadline v (omega (arith, h)) (rw same late)))
    ]

-- ===== src/Dispatcher/Progress.antt =====
-- A worker that waits for a slot gets one.
use talki_llm_admission_sche.Base.{
  ℕ, zero, suc, ◌+◌, ◌≤◌, ◌<◌, ◌≡◌, refl, ap, ◌∙◌, leb, Bool, String, true, false, Bool-cases, inl,
  inr, Option, some, arith,
}
use talki_llm_admission_sche.Redis.{Env, IsRedis, World, Keyspace, M, ok, pure, ◌>>=◌}
use talki_llm_admission_sche.Keys.{slots_in_use, slots_capacity}
use talki_llm_admission_sche.Python.{counting_errors}
use talki_llm_admission_sche.Scripts.{evalsha_claim_slot}
use talki_llm_admission_sche.Scripts.Atomic.{has_room, claimed as taken, claim_lem}
use talki_llm_admission_sche.Dispatcher.{Worker, Claim, try_claim, claim_loop, claimed, is_claimed}

counted :
    {A : Type 0} (operation : String) (m : M A) (w v : World) (a : A)
    → m w ≡ (ok a, v)
    → counting_errors operation m w ≡ (ok (some a), v)
unfolding counting_errors
counted operation m w v a h = ap (λ p. counting_errors operation (λ _. p) w) h

pub bound :
    {A B : Type 0} (m : M A) (f : A → M B) (w v : World) (a : A)
    → m w ≡ (ok a, v)
    → (m >>= f) w ≡ f a v
bound m f w v a h = ap (λ p. ((λ _. p) >>= f) w) h

module _ (env : Env) (wk : Worker) (j ts : String) (redis : IsRedis env.srv) (w : World)
    (up : env.down w.step ≡ false) where
  -- One try, with a free slot and without one.
  pub try_claim_room :
      has_room wk.model (env.others w.step w.keys) ≡ true
      → try_claim env wk j ts w ≡ (
        ok (some 1),
        record w { keys = taken wk.model j ts (env.others w.step w.keys); step = suc w.step },
      )
  unfolding try_claim
  try_claim_room room =
      counted "evalsha_claim_slot"
        (evalsha_claim_slot env (slots_in_use wk.model) (slots_capacity wk.model) j ts) w
        (record w { keys = taken wk.model j ts (env.others w.step w.keys); step = suc w.step }) 1
        (unfold evalsha_claim_slot in
          rw (up, claim_lem env.srv wk.model j ts (env.others w.step w.keys) redis, room) refl)

  pub try_claim_full :
      has_room wk.model (env.others w.step w.keys) ≡ false
      → try_claim env wk j ts w
        ≡ (ok (some 0), record w { keys = env.others w.step w.keys; step = suc w.step })
  unfolding try_claim
  try_claim_full full =
      counted "evalsha_claim_slot"
        (evalsha_claim_slot env (slots_in_use wk.model) (slots_capacity wk.model) j ts) w
        (record w { keys = env.others w.step w.keys; step = suc w.step }) 0
        (unfold evalsha_claim_slot in
          rw (up, claim_lem env.srv wk.model j ts (env.others w.step w.keys) redis, full) refl)

-- A worker that waits for a slot claims one, if Redis answers every command, the worker is not stopped
-- and a slot is free from the command `n` on, whatever the other clients have done before; for this the
-- loop needs no more rounds than there are commands until then, and one.
pub claim_loop_claims :
    (rounds n : ℕ) (env : Env) (wk : Worker) (j : String) (w : World)
    → IsRedis env.srv
    → ((k : ℕ) → env.down k ≡ false)
    → ((k : ℕ) → wk.stopped k ≡ false)
    → ((k : ℕ) (s : Keyspace) → n ≤ k → has_room wk.model (env.others k s) ≡ true)
    → 0 < rounds
    → n < w.step + rounds
    → (claim_loop rounds env wk j w).0 ≡ ok claimed
unfolding claim_loop
claim_loop_claims zero n env wk j w redis up going free some_round enough =
    absurd (omega (arith, some_round))
claim_loop_claims (suc rounds) n env wk j w redis up going free some_round enough =
    let answered = λ (answer : Option ℕ). elim (is_claimed answer) as (λ _. M Claim) [
      | true ↦ pure claimed
      | false ↦ claim_loop rounds env wk j
    ] in
    let ts = env.iso_now w.step in
    let left = record w { keys = env.others w.step w.keys; step = suc w.step } in
    elim (Bool-cases (has_room wk.model (env.others w.step w.keys))) [
      | inl room ↦ rw (going w.step) (
          ap (λ p. p.0)
            (bound (try_claim env wk j ts) answered w
              (record w {
                keys = taken wk.model j ts (env.others w.step w.keys);
                step = suc w.step;
              })
              (some 1) (try_claim_room env wk j ts redis w (up w.step) room)))
      | inr full ↦
          let later = before n w.step (free w.step w.keys) full in
          rw (going w.step) (
            ap (λ p. p.0)
              (bound (try_claim env wk j ts) answered w left (some 0)
                (try_claim_full env wk j ts redis w (up w.step) full))
            ∙ claim_loop_claims rounds n env wk j left redis up going free
                (omega (arith, later, enough)) (omega (arith, enough)))
    ]
  where
    before : {b : Bool} (m k : ℕ) → (m ≤ k → b ≡ true) → b ≡ false → k < m
    before m k h e = elim (Bool-cases (leb m k)) [
      | inl t ↦ let g : m ≤ k = ground (arith, t) in let e2 = h g in absurd (cc (e, e2))
      | inr t ↦ ground (arith, t)
    ]

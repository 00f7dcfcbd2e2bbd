-- ===== src/Orchestrator/Daemon/Ends.antt =====
-- The daemon outlives failing ticks and ends after a signal.
use native.Mathlib.Decide.{dec_lt}
use talki_llm_admission_sche.Base.{
  ℕ, zero, suc, ◌+◌, ◌≤◌, ◌<◌, ◌≡◌, refl, sym, ap, ◌∙◌, true, false, Bool-cases, inl, inr, Option,
  none, some, List, [], ◌∷◌, length, arith,
}
use talki_llm_admission_sche.Orchestrator.Text.{Text}
use talki_llm_admission_sche.Orchestrator.Daemon.{
  Happening, boot, heartbeat_start, heartbeat_fail, tick, wait, shutdown, Env, Run, ended, logging,
  after_tick, round, loop, when_ended, amain,
}

module _ (env : Env) (written : (n : ℕ) → env.writes n ≡ true) where
  logging-written :
      (h : Happening) (l : List Happening) (next : List Happening → Run)
      → logging env h l next ≡ next (h ∷ l)
  logging-written h l next = rw (written (length l), logging) refl

  clash : true ≡ false → ⊥
  clash h = cc

  -- A round leads on, with at most four happenings more, however its tick ends.
  abbrev Leads : List Happening → (List Happening → Run) → Run → Type 0
  Leads l next r =
      (k : List Happening) × (r ≡ next k) × (suc (length l) ≤ length k) × (length k ≤ length l + 4)

  ticked :
      (l : List Happening) (e : Option Text) (next : List Happening → Run)
      → Leads l next (after_tick env e (tick ∷ heartbeat_start ∷ l) next)
  ticked l none next = (wait ∷ tick ∷ heartbeat_start ∷ l, refl, omega arith, omega arith)
  ticked l (some e) next = (
    wait ∷ heartbeat_fail e ∷ tick ∷ heartbeat_start ∷ l,
    logging-written (heartbeat_fail e) (tick ∷ heartbeat_start ∷ l) (λ k. next (wait ∷ k)),
    omega arith,
    omega arith,
  )

  round_on : (l : List Happening) (next : List Happening → Run) → Leads l next (round env l next)
  round_on l next =
      rw
        (logging-written heartbeat_start l
          (λ k. after_tick env (env.tick_error (length k)) (tick ∷ k) next))
        (ticked l (env.tick_error (length (heartbeat_start ∷ l))) next)

  module _ (limit : ℕ) (signalled : (n : ℕ) → limit ≤ n → env.stopped n ≡ true) where
    abbrev EndsSoon : List Happening → Run → Type 0
    EndsSoon l r =
        (k : List Happening) × (r ≡ (ended, k)) × (length l ≤ limit + 3 → length k ≤ limit + 3)

    running : (l : List Happening) → env.stopped (length l) ≡ false → length l < limit
    running l e = elim (dec_lt (length l) limit) [
      | yes h ↦ h
      | no h ↦ absurd (clash (sym (signalled (length l) (omega arith)) ∙ e))
    ]

    loop_ends :
        (rounds : ℕ) (l : List Happening)
        → limit ≤ rounds + length l
        → EndsSoon l (loop rounds env l)
    unfolding loop
    loop_ends zero l h = rw (signalled (length l) (omega arith), loop) (l, refl, λ b. b)
    loop_ends (suc rounds) l h = elim (Bool-cases (env.stopped (length l))) [
      | inl e ↦ rw (e, loop) (l, refl, λ b. b)
      | inr e ↦
          let (k, same, more, less) = round_on l (loop rounds env) in
          let (j, end, soon) = loop_ends rounds k (omega arith) in
          let early = running l e in rw (e, loop) (j, same ∙ end, λ _. soon (omega arith))
    ]

    -- If every event can be written and a signal comes before the happening `limit`, then, however the ticks end, the
    -- daemon ends by itself, with the event of its shutdown, after at most limit + 4 happenings; so many rounds
    -- as `limit` are enough.
    pub amain_ends :
        (rounds : ℕ)
        → limit ≤ rounds
        → (k : List Happening) × (amain false rounds env ≡ (ended, shutdown ∷ k))
          × (length k ≤ limit + 3)
    unfolding amain
    amain_ends rounds h =
        let (k, end, soon) = loop_ends rounds (boot ∷ []) (omega arith) in
        let after : List Happening → Run = λ k. logging env shutdown k (λ j. (ended, j)) in
        (
          k,
          logging-written boot [] (λ l. when_ended (loop rounds env l) after)
              ∙ ap (λ r. when_ended r after) end
              ∙ logging-written shutdown k (λ j. (ended, j)),
          soon (omega arith),
        )

-- ===== src/Orchestrator/Budget/Calls.antt =====
-- The calls of check_and_reserve and of commit in any order: what they keep of the daily cap, and that they count right.
use talki_llm_admission_sche.Base.{
  ℕ, ◌+◌, ◌-◌, ◌≡◌, ap, ◌∙◌, Bool-cases, inl, inr, ◌==◌, ==_iff, arith,
}
use talki_llm_admission_sche.Base.Int.{
  ℤ, pos, ◌+ℤ◌, ◌-ℤ◌, ◌≤ℤ◌, +ℤ_parts, -ℤ_parts, eq_of_parts, ltb_ℤ,
}
use talki_llm_admission_sche.Orchestrator.Text.{Text}
use talki_llm_admission_sche.Orchestrator.Budget.{
  Fate, done, Store, put, by_total, incrby, expire, check_and_reserve, commit,
}
use talki_llm_admission_sche.Orchestrator.Budget.Ledger.{least, IsKept, reach-IsKept}
use talki_llm_admission_sche.Orchestrator.Budget.Refinement.{
  held_after, book_of, check_and_reserve_refines, commit_refines, put_here,
}

added : (a n m : ℕ) → a + n ≡ m → (pos a +ℤ pos n) ≡ pos m
unfolding ◌+ℤ◌
added a n m e = ground (arith, e)

undone : (a n : ℕ) → (pos a +ℤ pos n +ℤ (pos 0 -ℤ pos n)) ≡ pos a
undone a n = eq_of_parts (pos a +ℤ pos n +ℤ (pos 0 -ℤ pos n)) (pos a) (
    ground (
      arith,
      +ℤ_parts (pos a +ℤ pos n) (pos 0 -ℤ pos n),
      +ℤ_parts (pos a) (pos n),
      -ℤ_parts (pos 0) (pos n),
    ))

exchanged : (a n b m : ℕ) → a + b ≡ m + n → (pos a +ℤ (pos b -ℤ pos n)) ≡ pos m
exchanged a n b m e =
    eq_of_parts (pos a +ℤ (pos b -ℤ pos n)) (pos m)
      (ground (arith, +ℤ_parts (pos a) (pos b -ℤ pos n), -ℤ_parts (pos b) (pos n), e))

module _ (limit : ℤ) (key : Text) where
  -- What calls on a key of which nothing is used yet can come to: the store, the tokens that are granted and not
  -- committed, and the tokens of the commits, of which each counts up to its reservation.
  pub data Calls : Store → ℕ → ℕ → Type 0 where
    begins : (st : Store) → st.total key ≡ pos 0 → Calls st 0 0
    reserves :
        {st : Store} {held used : ℕ} (f g h : Fate) (n : ℕ)
        → Calls st held used
        → Calls
            (check_and_reserve f g h key limit n st).1
            (held_after (check_and_reserve f g h key limit n st).0 held)
            used
    commits :
        {st : Store} (f : Fate) (n held used actual : ℕ)
        → Calls st (n + held) used
        → Calls
            (commit f (record { key = key; reserved = n }) actual st)
            held
            (used + least actual n)

  -- The same where every command is done, with all tokens of a commit.
  pub data DoneCalls : Store → ℕ → ℕ → Type 0 where
    begins : (st : Store) → st.total key ≡ pos 0 → DoneCalls st 0 0
    reserves :
        {st : Store} {held used : ℕ} (n : ℕ)
        → DoneCalls st held used
        → DoneCalls
            (check_and_reserve done done done key limit n st).1
            (held_after (check_and_reserve done done done key limit n st).0 held)
            used
    commits :
        {st : Store} (n held used actual : ℕ)
        → DoneCalls st (n + held) used
        → DoneCalls
            (commit done (record { key = key; reserved = n }) actual st)
            held
            (used + actual)

  -- In the ledger of a store of calls the cap is kept.
  abbrev IsBooked : Store → ℕ → ℕ → Type 0
  IsBooked st held used =
      (excess : ℕ) × (over : ℕ) × IsKept limit (book_of st key held used excess over)

  calls-IsBooked :
      {st : Store} {held used : ℕ} → pos 0 ≤ℤ limit → Calls st held used → IsBooked st held used
  calls-IsBooked some_cap (begins st none) =
      (0, 0, record { counted = rw none (omega arith); within = some_cap })
  calls-IsBooked some_cap (reserves {st} {held} {used} f g h n calls) =
      let (excess, over, kept) = calls-IsBooked some_cap calls in
      let (o, steps) = check_and_reserve_refines limit key held used excess over f g h n st in
      (excess, o, reach-IsKept limit steps kept)
  calls-IsBooked some_cap (commits {st} f n held used actual calls) =
      let (excess, over, kept) = calls-IsBooked some_cap calls in
      (
        excess + (actual - n),
        over,
        reach-IsKept limit (commit_refines limit key held used excess over f n actual st) kept,
      )

  -- After any calls of check_and_reserve and of commit, one after another, of which any commands may be refused
  -- or lost, the tokens that are granted and not committed and those that are used, each commit counted up to its
  -- reservation, are together within the daily cap, which is not negative.
  pub calls-IsWithin :
      (st : Store) (held used : ℕ)
      → pos 0 ≤ℤ limit
      → Calls st held used
      → pos (held + used) ≤ℤ limit
  calls-IsWithin st held used some_cap calls = (calls-IsBooked some_cap calls).2.within

  put_twice : (f : Text → ℤ) (a b : ℤ) → put (put f key a) key (put f key a key +ℤ b) key ≡ a +ℤ b
  put_twice f a b =
      put_here (put f key a) key (put f key a key +ℤ b) ∙ ap (λ t. t +ℤ b) (put_here f key a)

  reserved-total :
      (st : Store) (held used n : ℕ)
      → st.total key ≡ pos (held + used)
      → let (r, st2) = check_and_reserve done done done key limit n st in
        st2.total key ≡ pos (held_after r held + used)
  unfolding check_and_reserve incrby expire
  reserved-total st held used n same = elim (Bool-cases (ltb_ℤ limit (st.total key +ℤ pos n))) [
    | inl e ↦
        rw (e, by_total)
          (put_twice st.total (st.total key +ℤ pos n) (pos 0 -ℤ pos n)
            ∙ rw same (undone (held + used) n))
    | inr e ↦
        rw (e, by_total)
          (put_here st.total key (st.total key +ℤ pos n)
            ∙ rw same (added (held + used) n (n + held + used) (omega arith)))
  ]

  committed-total :
      (st : Store) (n held used actual : ℕ)
      → st.total key ≡ pos (n + held + used)
      → (commit done (record { key = key; reserved = n }) actual st).total key
        ≡ pos (held + (used + actual))
  unfolding commit incrby
  committed-total st n held used actual same = elim (Bool-cases (actual == n)) [
    | inl e ↦ rw (e, commit) (same ∙ ap pos (omega (arith, (==_iff actual n).0 e)))
    | inr e ↦
        rw (e, commit)
          (put_here st.total key (st.total key +ℤ (pos actual -ℤ pos n))
            ∙ rw same (exchanged (n + held + used) n actual (held + (used + actual)) (omega arith)))
  ]

  -- Where every command is done, the counter of the key is at all times exactly the tokens that are granted and not
  -- committed and all tokens that are used: a reservation that is not granted is taken back in full, and a commit
  -- puts the tokens used in place of those reserved.
  pub DoneCalls-total :
      (st : Store) (held used : ℕ) → DoneCalls st held used → st.total key ≡ pos (held + used)
  DoneCalls-total _ _ _ (begins st none) = none
  DoneCalls-total _ _ _ (reserves {st} {held} {used} n calls) =
      reserved-total st held used n (DoneCalls-total st held used calls)
  DoneCalls-total _ _ _ (commits {st} n held used actual calls) =
      committed-total st n held used actual (DoneCalls-total st (n + held) used calls)

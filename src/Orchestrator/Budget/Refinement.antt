-- ===== src/Orchestrator/Budget/Refinement.antt =====
-- The operations of the budget as steps of the ledger.
use talki_llm_admission_sche.Base.{
  ℕ, ◌+◌, ◌-◌, ◌≡◌, refl, true, false, inl, inr, arith, ◌==◌, [], ◌∷◌, Bool-cases,
}
use talki_llm_admission_sche.Base.Int.{ℤ, pos, ◌+ℤ◌, ◌-ℤ◌, ltb_ℤ}
use talki_llm_admission_sche.Orchestrator.Text.{Text, same_text}
use talki_llm_admission_sche.Orchestrator.Budget.{
  Fate, done, refused, lost, Store, raised, put, incrby, expire, expiring, Granting, granted,
  exceeded, unavailable, by_total, check_and_reserve, commit,
}
use talki_llm_admission_sche.Orchestrator.Budget.Ledger.{
  Book, least, reserves, adds, takes_back, commits, forgets, Reach, here, after,
}

pub same_text_refl : (s : Text) → same_text s s ≡ true
unfolding same_text
same_text_refl [] = refl
same_text_refl (c ∷ s) = ground (arith, same_text_refl s)

pub put_here {ℓ} : {A : Type ℓ} (f : Text → A) (key : Text) (a : A) → put f key a key ≡ a
put_here f key a = rw (same_text_refl key) refl

-- What is held after a reservation.
abbrev pub held_after : Granting → ℕ → ℕ
held_after (granted r) held = r.reserved + held
held_after exceeded held = held
held_after unavailable held = held

-- The ledger of a key.
abbrev pub book_of : Store → Text → ℕ → ℕ → ℕ → ℕ → Book
book_of st key held used excess over = record {
  total = st.total key;
  held = held;
  used = used;
  excess = excess;
  over = over;
}

-- From one store to another there are steps, after which some sum is not granted.
abbrev pub Leads : ℤ → Text → ℕ → ℕ → ℕ → ℕ → Store → Granting × Store → Type 0
Leads limit key held used excess over st (r, st2) =
    (o : ℕ) × Reach limit (book_of st key held used excess over)
      (book_of st2 key (held_after r held) used excess o)

join : {limit : ℤ} {a b c : Book} → Reach limit a b → Reach limit b c → Reach limit a c
join (here a) r = r
join (after s q) r = after s (join q r)

module _ (limit : ℤ) (key : Text) (held used excess over : ℕ) where
  raised_adds :
      (st : Store) (n o : ℕ)
      → Reach limit
          (book_of st key held used excess o)
          (book_of (raised st key (pos n)) key held used excess (n + o))
  raised_adds st n o =
      rw (put_here st.total key (st.total key +ℤ pos n))
        (after (adds (book_of st key held used excess o) n) (here _))

  raised_takes_back :
      (st : Store) (n o : ℕ)
      → Reach limit
          (book_of st key held used excess (n + o))
          (book_of (raised st key (pos 0 -ℤ pos n)) key held used excess o)
  raised_takes_back st n o =
      rw (put_here st.total key (st.total key +ℤ (pos 0 -ℤ pos n)))
        (after (takes_back (book_of st key held used excess (n + o)) n o refl) (here _))

  raised_reserves :
      (st : Store) (n : ℕ)
      → ltb_ℤ limit (st.total key +ℤ pos n) ≡ false
      → Reach limit
          (book_of st key held used excess over)
          (book_of (raised st key (pos n)) key (n + held) used excess over)
  raised_reserves st n e =
      rw (put_here st.total key (st.total key +ℤ pos n))
        (after (reserves (book_of st key held used excess over) n (ground (arith, e))) (here _))

  by_total_refines :
      (h : Fate) (st : Store) (n : ℕ)
      → Leads limit key held used excess over st
          (by_total h key limit n (st.total key +ℤ pos n) (expiring (raised st key (pos n)) key))
  unfolding incrby
  by_total_refines h st n = elim (Bool-cases (ltb_ℤ limit (st.total key +ℤ pos n))) [
    | inl e ↦ rw (e, by_total) (back h)
    | inr e ↦ rw (e, by_total) (over, raised_reserves st n e)
  ]
    where
      back :
          (h : Fate)
          → Leads limit key held used excess over st
              (exceeded, (incrby h key (pos 0 -ℤ pos n) (expiring (raised st key (pos n)) key)).1)
      back done = (
        over,
        join (raised_adds st n over)
            (raised_takes_back (expiring (raised st key (pos n)) key) n over),
      )
      back lost = (
        over,
        join (raised_adds st n over)
            (raised_takes_back (expiring (raised st key (pos n)) key) n over),
      )
      back refused = (n + over, raised_adds st n over)

  -- Every run of check_and_reserve, however its commands end, is a sequence of steps of the ledger of the
  -- key: what it grants is held after it, and if it grants nothing then what is held stays.
  pub check_and_reserve_refines :
      (f g h : Fate) (n : ℕ) (st : Store)
      → Leads limit key held used excess over st (check_and_reserve f g h key limit n st)
  unfolding check_and_reserve incrby expire
  check_and_reserve_refines refused g h n st = (over, here _)
  check_and_reserve_refines lost g h n st = (n + over, raised_adds st n over)
  check_and_reserve_refines done done h n st = by_total_refines h st n
  check_and_reserve_refines done refused h n st = (n + over, raised_adds st n over)
  check_and_reserve_refines done lost h n st = (n + over, raised_adds st n over)

  -- Every commit of a reservation that is held, whether its command is done, refused or lost, is a step of
  -- the ledger: the reservation is held no more, and the tokens are used.
  pub commit_refines :
      (f : Fate) (n actual : ℕ) (st : Store)
      → Reach limit (book_of st key (n + held) used excess over) (
          book_of
            (commit f (record { key = key; reserved = n }) actual st)
            key
            held
            (used + least actual n)
            (excess + (actual - n))
            over)
  unfolding commit incrby
  commit_refines f n actual st = elim (Bool-cases (actual == n)) [
    | inl e ↦ rw (e, commit) (forgotten st)
    | inr e ↦ rw (e, commit) (adjusted f)
  ]
    where
      forgotten :
          (st2 : Store)
          → Reach limit
              (book_of st2 key (n + held) used excess over)
              (book_of st2 key held (used + least actual n) (excess + (actual - n)) over)
      forgotten st2 =
          after (forgets (book_of st2 key (n + held) used excess over) n held actual refl) (here _)

      adjusted :
          (f : Fate)
          → Reach limit (book_of st key (n + held) used excess over) (
              book_of
                (incrby f key (pos actual -ℤ pos n) st).1
                key
                held
                (used + least actual n)
                (excess + (actual - n))
                over)
      adjusted refused = forgotten st
      adjusted done =
          rw (put_here st.total key (st.total key +ℤ (pos actual -ℤ pos n))) (
            after (commits (book_of st key (n + held) used excess over) n held actual refl)
              (here _))
      adjusted lost =
          rw (put_here st.total key (st.total key +ℤ (pos actual -ℤ pos n))) (
            after (commits (book_of st key (n + held) used excess over) n held actual refl)
              (here _))

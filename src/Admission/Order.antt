-- ===== src/Admission/Order.antt =====
-- The scores (app/core/admission.py) and the order in which a queue serves its jobs.
use talki_llm_admission_sche.Base.{ℕ, suc, ◌+◌, ◌*◌, ◌%◌, ◌^◌, ◌≤◌, ◌<◌, ◌≡◌, true, arith}
use talki_llm_admission_sche.Base.Int.{
  ℤ, pos, negsuc, ◌+ℤ◌, ◌*ℤ◌, ◌≤ℤ◌, ◌<ℤ◌, pos_part, neg_part, +ℤ_parts,
}
use talki_llm_admission_sche.Config.{priority_in_range}
use talki_llm_admission_sche.Admission.Score.{priority_multiplier, mod_ℤ, score}

mod_ℤ-lt : (n : ℤ) → mod_ℤ n 1000 < 1000
mod_ℤ-lt (pos n) = omega arith
mod_ℤ-lt (negsuc n) = omega arith

-- The score as an equation between natural numbers.
score_parts :
    (p : ℤ) (t : ℕ) (s : ℤ)
    → pos_part (score p t s) + neg_part p * priority_multiplier
      ≡ neg_part (score p t s)
        + pos_part p * priority_multiplier
        + t % priority_multiplier
        + mod_ℤ s 1000
unfolding score ◌+ℤ◌ ◌*ℤ◌
score_parts (pos n) t s = ground arith
score_parts (negsuc n) t s = ground arith

-- Valid priorities are two apart.
tier_gap :
    (p q : ℤ) → priority_in_range p ≡ true → priority_in_range q ≡ true → p <ℤ q → p +ℤ pos 2 ≤ℤ q
unfolding priority_in_range ◌+ℤ◌
tier_gap p q hp hq h = ground arith

-- Of two jobs whose priorities are valid tiers the one with the lower number has the lower score,
-- whenever they came and whatever the sequence numbers are.
pub score_tiers :
    (p q : ℤ) (t u : ℕ) (a b : ℤ)
    → priority_in_range p ≡ true
    → priority_in_range q ≡ true
    → p <ℤ q
    → score p t a <ℤ score q u b
score_tiers p q t u a b hp hq h = omega (
  arith,
  tier_gap p q hp hq h,
  +ℤ_parts p (pos 2),
  score_parts p t a,
  score_parts q u b,
  mod_ℤ-lt a,
)

-- The score of a valid tier is a natural number below 2 ^ 53, where Python's float is exact.
pub score_exact :
    (p : ℤ) (t : ℕ) (a : ℤ)
    → priority_in_range p ≡ true
    → (pos 0 ≤ℤ score p t a) × (score p t a <ℤ pos (2 ^ 53))
unfolding priority_in_range
score_exact p t a hp = ground (arith, score_parts p t a, mod_ℤ-lt a)

-- Within one priority and one period of 10 ^ 12 ns, a job that comes a microsecond or more after
-- another has the higher score.
pub score_fifo :
    (p : ℤ) (period t u : ℕ) (a b : ℤ)
    → t < priority_multiplier
    → u < priority_multiplier
    → t + 1000 ≤ u
    → score p (period * priority_multiplier + t) a <ℤ score p (period * priority_multiplier + u) b
score_fifo p period t u a b ht hu h = omega (
  arith,
  score_parts p (period * priority_multiplier + t) a,
  score_parts p (period * priority_multiplier + u) b,
  mod_ℤ-lt a,
)

-- Across the end of a period the order turns round: a job that comes at an offset of a period is
-- overtaken by each later job of its priority that comes at an offset of the next period which is a
-- microsecond or more smaller.
pub score_wraps :
    (p : ℤ) (period t u : ℕ) (a b : ℤ)
    → t < priority_multiplier
    → u + 1000 ≤ t
    → score p (suc period * priority_multiplier + u) b
      <ℤ score p (period * priority_multiplier + t) a
score_wraps p period t u a b ht h = omega (
  arith,
  score_parts p (period * priority_multiplier + t) a,
  score_parts p (suc period * priority_multiplier + u) b,
  mod_ℤ-lt b,
)

-- In two successive nanoseconds the later job has the lower score, if the sequence number of the
-- earlier one is two or more higher modulo 1000.
pub score_seq_inverts :
    (p : ℤ) (t : ℕ) (a b : ℤ)
    → suc (t % priority_multiplier) < priority_multiplier
    → mod_ℤ b 1000 + 2 ≤ mod_ℤ a 1000
    → score p (suc t) b <ℤ score p t a
score_seq_inverts p t a b h hs = omega (arith, score_parts p t a, score_parts p (suc t) b)

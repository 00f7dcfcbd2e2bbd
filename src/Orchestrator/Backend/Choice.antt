-- ===== src/Orchestrator/Backend/Choice.antt =====
-- Which issue a heartbeat of the backend agent takes.
use mathlib.Core.Path.{subst}
use talki_llm_admission_sche.Base.{
  ℕ, ◌≤◌, ltb, ◌≡◌, refl, inl, inr, ◌&&◌, Bool, true, false, not, Bool-cases, some, List, [], ◌∷◌,
  All, Among, arith, if◌then◌else◌,
}
use talki_llm_admission_sche.Orchestrator.Labels.{has_label, review_label}
use talki_llm_admission_sche.Orchestrator.Backend.{
  Issue, inprogress_label, done_label, blocked_label, is_candidate, candidates, lowest, first_of,
  next_issue,
}

-- The issue has the number and none of the four labels that take it out of the agent's hands.
pub record IsWaiting (n : ℕ) (i : Issue) : Type 0 where
  pub same : i.number ≡ n
  pub not_in_progress : has_label inprogress_label i.labels ≡ false
  pub not_done : has_label done_label i.labels ≡ false
  pub not_blocked : has_label blocked_label i.labels ≡ false
  pub not_in_review : has_label review_label i.labels ≡ false

-- The number is the lowest of the issues that wait.
pub record IsPicked (issues : List Issue) (n : ℕ) : Type 0 where
  pub waiting : Among (IsWaiting n) issues
  pub least : All (λ j. is_candidate j ≡ true → n ≤ j.number) issues

waits :
    (a b c d : Bool)
    → (not a && not b && not c && not d) ≡ true
    → (a ≡ false) × (b ≡ false) × (c ≡ false) × (d ≡ false)
waits false false false false h = (refl, refl, refl, refl)
waits true b c d h = absurd (cc)
waits false true c d h = absurd (cc)
waits false false true d h = absurd (cc)
waits false false false true h = absurd (cc)

candidate-IsWaiting : (i : Issue) → is_candidate i ≡ true → IsWaiting i.number i
candidate-IsWaiting i h =
    let (a, b, c, d) =
      waits (has_label inprogress_label i.labels) (has_label done_label i.labels)
        (has_label blocked_label i.labels) (has_label review_label i.labels) h in
    record { same = refl; not_in_progress = a; not_done = b; not_blocked = c; not_in_review = d }

candidates_among :
    (P : ℕ → Type 0) (issues : List Issue)
    → ((n : ℕ) → Among (IsWaiting n) issues → P n)
    → All (λ i. P i.number) (candidates issues)
unfolding candidates
candidates_among P [] f = tt
candidates_among P (i ∷ issues) f =
    let rest = candidates_among P issues (λ n h. f n (inr h)) in
    elim (Bool-cases (is_candidate i)) [
      | inl e ↦ rw (e, candidates) (f i.number (inl (candidate-IsWaiting i e)), rest)
      | inr e ↦ rw (e, candidates) rest
    ]

kept_least :
    (m : ℕ) (i : Issue) (rest : List Issue) (t : Bool)
    → All (λ j. m ≤ j.number) (if t then i ∷ rest else rest)
    → (t ≡ true → m ≤ i.number) × All (λ j. m ≤ j.number) rest
kept_least m i rest true h = (λ _. h.0, h.1)
kept_least m i rest false h = (λ e. absurd (cc), h)

candidates_least :
    (m : ℕ) (issues : List Issue)
    → All (λ i. m ≤ i.number) (candidates issues)
    → All (λ j. is_candidate j ≡ true → m ≤ j.number) issues
unfolding candidates
candidates_least m [] h = tt
candidates_least m (i ∷ issues) h =
    let (first, rest) = kept_least m i (candidates issues) (is_candidate i) h in
    (first, candidates_least m issues rest)

-- The earlier issue, or the later one if its number is lower.
chosen :
    (P : ℕ → Type 0) (b i : Issue) (t : Bool)
    → P b.number
    → P i.number
    → P (if t then i else b).number
chosen P b i true p q = q
chosen P b i false p q = p

chosen_le :
    (b i : Issue) (t : Bool)
    → ltb i.number b.number ≡ t
    → ((if t then i else b).number ≤ b.number) × ((if t then i else b).number ≤ i.number)
chosen_le b i true e = (ground arith, ground arith)
chosen_le b i false e = (ground arith, ground arith)

lowest_among :
    (P : ℕ → Type 0) (b : Issue) (l : List Issue)
    → P b.number
    → All (λ i. P i.number) l
    → P (lowest b l).number
unfolding lowest
lowest_among P b [] p h = p
lowest_among P b (i ∷ l) p h =
    lowest_among P (if ltb i.number b.number then i else b) l
      (chosen P b i (ltb i.number b.number) p h.0) h.1

lowest_least :
    (b : Issue) (l : List Issue)
    → ((lowest b l).number ≤ b.number) × All (λ i. (lowest b l).number ≤ i.number) l
unfolding lowest
lowest_least b [] = (ground arith, tt)
lowest_least b (i ∷ l) =
    let (h, rest) = lowest_least (if ltb i.number b.number then i else b) l in
    let (p, q) = chosen_le b i (ltb i.number b.number) refl in
    (omega (arith, h, p), (omega (arith, h, q), rest))

first_among :
    (P : ℕ → Type 0) (l : List Issue) (i : Issue)
    → All (λ j. P j.number) l
    → first_of l ≡ some i
    → P i.number × All (λ j. i.number ≤ j.number) l
first_among P [] i h e = absurd (cc)
first_among P (b ∷ l) i h e =
    let same : lowest b l ≡ i = cc e in
    subst (λ k. P k.number × All (λ j. k.number ≤ j.number) (b ∷ l)) same
      (lowest_among P b l h.0 h.1, lowest_least b l)

pub next_issue-IsPicked :
    (issues : List Issue) (i : Issue) → next_issue issues ≡ some i → IsPicked issues i.number
unfolding next_issue
next_issue-IsPicked issues i h =
    let (waiting, least) =
      first_among (λ n. Among (IsWaiting n) issues) (candidates issues) i
        (candidates_among (λ n. Among (IsWaiting n) issues) issues (λ n w. w)) h in
    record { waiting = waiting; least = candidates_least i.number issues least }

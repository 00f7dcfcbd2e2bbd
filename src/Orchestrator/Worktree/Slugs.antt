-- ===== src/Orchestrator/Worktree/Slugs.antt =====
-- The slug of a title, which is a part of a branch and of a folder.
use talki_llm_admission_sche.Base.{
  ℕ, zero, suc, ◌≤◌, ◌≡◌, refl, ◌&&◌, ◌||◌, Bool, true, false, Bool-cases, inl, inr, [], ◌∷◌,
  length, All, arith,
}
use talki_llm_admission_sche.Orchestrator.Text.{Text, is_empty, lstrip_by, rstrip_by}
use talki_llm_admission_sche.Orchestrator.Worktree.{
  is_alphanumeric, is_dash, dashes, first_chars, or_task, slug,
}

-- A letter or a digit of ASCII, or a dash.
abbrev pub SlugChar : ℕ → Type 0
SlugChar c = (is_alphanumeric c || is_dash c) ≡ true

replaced-All :
    (b : Bool) (t : Text)
    → All SlugChar t
    → All SlugChar (elim b as (λ _. Text) [ true ↦ t | false ↦ b'-' ∷ t ])
replaced-All true t h = h
replaced-All false t h = (refl, h)

dashes-All : (b : Bool) (s : Text) → All SlugChar (dashes b s)
unfolding dashes
dashes-All b [] = tt
dashes-All b (c ∷ s) =
    let after = dashes-All false s in
    let replaced = replaced-All b (dashes true s) (dashes-All true s) in
    elim (Bool-cases (is_alphanumeric c)) [
      | inl h ↦ rw (h, dashes) (rw h refl, after)
      | inr h ↦ rw (h, dashes) replaced
    ]

module _ (Q : ℕ → Type 0) (p : ℕ → Bool) where
  lstrip_by-All : (s : Text) → All Q s → All Q (lstrip_by p s)
  unfolding lstrip_by
  lstrip_by-All [] h = tt
  lstrip_by-All (c ∷ s) h = elim (Bool-cases (p c)) [
    | inl e ↦ rw e (lstrip_by-All s h.1)
    | inr e ↦ rw e h
  ]

  rstrip_by-All : (s : Text) → All Q s → All Q (rstrip_by p s)
  unfolding rstrip_by
  rstrip_by-All [] h = tt
  rstrip_by-All (c ∷ s) h = elim (Bool-cases (is_empty (rstrip_by p s) && p c)) [
    | inl e ↦ rw e tt
    | inr e ↦ rw e (h.0, rstrip_by-All s h.1)
  ]

first_chars-All : (Q : ℕ → Type 0) (n : ℕ) (s : Text) → All Q s → All Q (first_chars n s)
unfolding first_chars
first_chars-All Q zero s h = tt
first_chars-All Q (suc n) [] h = tt
first_chars-All Q (suc n) (c ∷ s) h = (h.0, first_chars-All Q n s h.1)

length-first_chars : (n : ℕ) (s : Text) → length (first_chars n s) ≤ n
unfolding first_chars
length-first_chars zero s = omega arith
length-first_chars (suc n) [] = omega arith
length-first_chars (suc n) (c ∷ s) = omega (arith, length-first_chars n s)

-- A text that is empty or does not begin with a dash.
abbrev pub NoDashFirst : Text → Type 0
NoDashFirst [] = Unit
NoDashFirst (c ∷ s) = is_dash c ≡ false

lstrip_by-NoDashFirst : (s : Text) → NoDashFirst (lstrip_by is_dash s)
unfolding lstrip_by
lstrip_by-NoDashFirst [] = tt
lstrip_by-NoDashFirst (c ∷ s) = elim (Bool-cases (is_dash c)) [
  | inl h ↦ rw h (lstrip_by-NoDashFirst s)
  | inr h ↦ rw h h
]

rstrip_by-NoDashFirst : (s : Text) → NoDashFirst s → NoDashFirst (rstrip_by is_dash s)
unfolding rstrip_by
rstrip_by-NoDashFirst [] h = tt
rstrip_by-NoDashFirst (c ∷ s) h = elim (Bool-cases (is_empty (rstrip_by is_dash s) && is_dash c)) [
  | inl e ↦ rw e tt
  | inr e ↦ rw e h
]

first_chars-NoDashFirst : (n : ℕ) (s : Text) → NoDashFirst s → NoDashFirst (first_chars n s)
unfolding first_chars
first_chars-NoDashFirst zero s h = tt
first_chars-NoDashFirst (suc n) [] h = tt
first_chars-NoDashFirst (suc n) (c ∷ s) h = h

-- A text of one to 40 such characters, the first no dash.
abbrev pub IsSlug : Text → Type 0
IsSlug s = (1 ≤ length s) × (length s ≤ 40) × All SlugChar s × NoDashFirst s

or_task-IsSlug : (s : Text) → length s ≤ 40 → All SlugChar s → NoDashFirst s → IsSlug (or_task s)
or_task-IsSlug [] h a d = (omega arith, omega arith, (refl, (refl, (refl, (refl, tt)))), refl)
or_task-IsSlug (c ∷ s) h a d = (omega arith, h, a, d)

-- Whatever the title, and whatever `lower` makes of it, the slug has one to 40 characters, each a letter or a digit of
-- ASCII or a dash, and the first no dash: no slash, no dot, no space.
pub slug-IsSlug : (lower : Text → Text) (title : Text) → IsSlug (slug lower title)
unfolding slug
slug-IsSlug lower title =
    let replaced = dashes false (lower title) in
    let left = lstrip_by is_dash replaced in
    let stripped = rstrip_by is_dash left in
    or_task-IsSlug (first_chars 40 stripped) (length-first_chars 40 stripped)
      (first_chars-All SlugChar 40 stripped (
        rstrip_by-All SlugChar is_dash left
          (lstrip_by-All SlugChar is_dash replaced (dashes-All false (lower title)))))
      (first_chars-NoDashFirst 40 stripped
        (rstrip_by-NoDashFirst left (lstrip_by-NoDashFirst replaced)))

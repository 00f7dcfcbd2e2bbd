-- ===== src/Orchestrator/Roles/Laws.antt =====
-- The profiles, and what a `.env` file may change.
use mathlib.Core.Path.{subst}
use talki_llm_admission_sche.Base.{
  ℕ, ◌≡◌, refl, ==_iff, Bool, true, false, Bool-cases, inl, inr, Option, none, some, Option-cases,
  List, [], ◌∷◌, All, codes, arith, ◌<◌, ◌↔◌, ◌⊎◌,
}
use talki_llm_admission_sche.Orchestrator.Text.{Text, same_text, strip, splitlines}
use talki_llm_admission_sche.Orchestrator.Roles.{
  Role, roles, find_role, role, Variables, variable, set_default, split_equals, strip_quotes,
  is_assignment, load_line, load_lines, load_dotenv,
}

pub same_text_sound : (s t : Text) → same_text s t ≡ true → s ≡ t
unfolding same_text
same_text_sound [] [] h = refl
same_text_sound [] (d ∷ t) h = absurd (cc)
same_text_sound (c ∷ s) [] h = absurd (cc)
same_text_sound (c ∷ s) (d ∷ t) h = ground (arith, h, same_text_sound s t, ==_iff c d)

-- A role's primary model has time, and its second model has time exactly if there is one.
pub record IsTimed (r : Role) : Type 0 where
  pub primary : 0 < r.llm_timeout_s
  pub fallback : (r.fallback_alias ≡ none) ↔ (r.fallback_timeout_s ≡ 0)

some_timed : (t : Text) (n : ℕ) → 0 < n → (some t ≡ none) ↔ (n ≡ 0)
some_timed t n h = (λ e. absurd (cc), λ e. absurd (omega (arith, e, h)))

none_timed : (o : Option Text) (n : ℕ) → o ≡ none → n ≡ 0 → (o ≡ none) ↔ (n ≡ 0)
none_timed o n p q = (λ e. q, λ e. p)

found_cases :
    (s r : Role) (rest : Option Role) (b : Bool)
    → elim b as (λ _. Option Role) [ true ↦ some s | false ↦ rest ] ≡ some r
    → ((b ≡ true) × (s ≡ r)) ⊎ (rest ≡ some r)
found_cases s r rest true h = inl (refl, cc h)
found_cases s r rest false h = inr h

find_role_sound :
    (P : Role → Type 0) (rs : List Role) (name : Text) (r : Role)
    → All P rs
    → find_role rs name ≡ some r
    → P r × (r.name ≡ name)
unfolding find_role
find_role_sound P [] name r h e = absurd (cc)
find_role_sound P (s ∷ rs) name r h e =
    elim (found_cases s r (find_role rs name) (same_text s.name name) e) [
      | inl (t, same) ↦ subst (λ q. P q × (q.name ≡ name)) same (h.0, same_text_sound s.name name t)
      | inr rest ↦ find_role_sound P rs name r h.1 rest
    ]

roles-IsTimed : All IsTimed roles
roles-IsTimed =
    let with = λ (t : Text). some_timed t 300 (omega arith) in
    let without = none_timed none 0 refl refl in
    (
      record { primary = omega arith; fallback = with (codes "brain-exec") },
      (
        record { primary = omega arith; fallback = with (codes "brain-exec") },
        (
          record { primary = omega arith; fallback = with (codes "brain-exec") },
          (
            record { primary = omega arith; fallback = without },
            (
              record { primary = omega arith; fallback = without },
              (record { primary = omega arith; fallback = without }, tt),
            ),
          ),
        ),
      ),
    )

-- What `role` returns has the name that was asked for, a positive timeout for its primary model, and a
-- positive timeout for its second model exactly if it has one.
pub role_lem : (name : Text) (r : Role) → role name ≡ some r → IsTimed r × (r.name ≡ name)
unfolding role
role_lem name r h = find_role_sound IsTimed roles name r roles-IsTimed h

set_before :
    (j v k old : Text) (env : Variables)
    → variable j env ≡ none
    → variable k env ≡ some old
    → variable k ((j, v) ∷ env) ≡ some old
unfolding variable
set_before j v k old env e h = elim (Bool-cases (same_text j k)) [
  | inl t ↦ let same = same_text_sound j k t in absurd (cc (e, h, same))
  | inr t ↦ rw (t, variable) h
]

-- A variable that is set keeps its value.
set_default_keeps :
    (j v k old : Text) (env : Variables)
    → variable k env ≡ some old
    → variable k (set_default j v env) ≡ some old
unfolding set_default
set_default_keeps j v k old env h = elim (Option-cases (variable j env)) [
  | inl e ↦ rw (e, set_default) (set_before j v k old env e h)
  | inr (w, e) ↦ rw (e, set_default) h
]

load_line_keeps :
    (line k old : Text) (env : Variables)
    → variable k env ≡ some old
    → variable k (load_line line env) ≡ some old
load_line_keeps line k old env h = elim (Bool-cases (is_assignment line)) [
  | inl t ↦
      rw (t, load_line)
        (set_default_keeps (strip (split_equals [] line).0)
          (strip_quotes (strip (split_equals [] line).1)) k old env h)
  | inr t ↦ rw (t, load_line) h
]

load_lines_keeps :
    (lines : List Text) (k old : Text) (env : Variables)
    → variable k env ≡ some old
    → variable k (load_lines lines env) ≡ some old
unfolding load_lines
load_lines_keeps [] k old env h = h
load_lines_keeps (line ∷ lines) k old env h =
    load_lines_keeps lines k old (load_line (strip line) env)
      (load_line_keeps (strip line) k old env h)

-- A `.env` file, whatever is in it, changes no variable that is set.
pub load_dotenv_keeps :
    (content : Option Text) (k old : Text) (env : Variables)
    → variable k env ≡ some old
    → variable k (load_dotenv content env) ≡ some old
unfolding load_dotenv
load_dotenv_keeps none k old env h = h
load_dotenv_keeps (some content) k old env h = load_lines_keeps (splitlines content) k old env h

-- ===== src/Orchestrator/Charter/Traces.antt =====
-- What the two regular expressions and the extensions of section 4 of the charter mean, with no use of the code.
use talki_llm_admission_sche.Base.{
  ℕ, zero, suc, ◌≤◌, ◌==◌, ==_iff, leb, ◌≡◌, refl, ap, ◌∙◌, ◌⊎◌, ◌↔◌, ◌&&◌, ◌||◌, Bool, true, [],
  ◌∷◌, ◌++◌, codes, length, All, arith,
}
use talki_llm_admission_sche.Orchestrator.Text.{Text}
use talki_llm_admission_sche.Orchestrator.Glob.Laws.{any_suffix_sound, any_suffix_complete}
use talki_llm_admission_sche.Orchestrator.Charter.Rejection.{
  after, run_of, is_digit, is_upper, is_lower, is_low_hex, secret_at, has_secret, is_config,
}
use talki_llm_admission_sche.Orchestrator.Charter.Reflect.{or_iff, and_iff, EndsIn, ends_with_iff}

-- A text with a head and, after it, so many characters of a class.
abbrev pub IsToken : Text → (ℕ → Type 0) → ℕ → Text → Type 0
IsToken head P n s =
    (body : Text) × (rest : Text) × (s ≡ head ++ (body ++ rest)) × (length body ≡ n) × All P body

abbrev pub Between : ℕ → ℕ → ℕ → Type 0
Between a b c = (a ≤ c) × (c ≤ b)

-- The beginnings of texts that are secrets.
abbrev pub IsSecret : Text → Type 0
IsSecret s =
    (IsToken (codes "sk-") (λ c. Between b'a' b'f' c ⊎ Between b'0' b'9' c) 16 s
      ⊎ IsToken (codes "ghp_")
          (λ c. (Between b'a' b'z' c ⊎ Between b'A' b'Z' c) ⊎ Between b'0' b'9' c) 20 s)
    ⊎ IsToken (codes "AKIA") (λ c. Between b'A' b'Z' c ⊎ Between b'0' b'9' c) 16 s

abbrev pub HasSecret : Text → Type 0
HasSecret line = (a : Text) × (t : Text) × (line ≡ a ++ t) × IsSecret t

Between-iff : (a b c : ℕ) → ((leb a c && leb c b) ≡ true) ↔ Between a b c
Between-iff a b c = (λ h. (ground (arith, h), ground (arith, h)), λ h. ground (arith, h.0, h.1))

module _ (p : ℕ → Bool) (P : ℕ → Type 0) (each : (c : ℕ) → (p c ≡ true) ↔ P c) where
  run_of_sound :
      (n : ℕ) (s : Text)
      → run_of p n s ≡ true
      → (body : Text) × (rest : Text) × (s ≡ body ++ rest) × (length body ≡ n) × All P body
  unfolding run_of
  run_of_sound zero s h = ([], s, refl, refl, tt)
  run_of_sound (suc n) [] h = absurd (cc)
  run_of_sound (suc n) (c ∷ s) h =
      let (this, later) = (and_iff (p c) (run_of p n s) (each c) (λ x. x, λ x. x)).0 h in
      let (body, rest, e, size, all) = run_of_sound n s later in
      (c ∷ body, rest, ap (λ t. c ∷ t) e, ap (λ m. suc m) size, (this, all))

  run_of_complete :
      (n : ℕ) (body rest : Text) → length body ≡ n → All P body → run_of p n (body ++ rest) ≡ true
  unfolding run_of
  run_of_complete zero body rest size all = refl
  run_of_complete (suc n) [] rest size all = absurd (omega (arith, size))
  run_of_complete (suc n) (c ∷ body) rest size all =
      let later = run_of_complete n body rest (omega (arith, size)) all.1 in
      (and_iff (p c) (run_of p n (body ++ rest)) (each c) (λ x. x, λ x. x)).1 (all.0, later)

  IsToken-sound :
      (head : Text) (n : ℕ) (s : Text) → after head (run_of p n) s ≡ true → IsToken head P n s
  unfolding after
  IsToken-sound [] n s h = run_of_sound n s h
  IsToken-sound (k ∷ head) n [] h = absurd (cc)
  IsToken-sound (k ∷ head) n (c ∷ s) h =
      let (this, later) =
        (and_iff (c == k) (after head (run_of p n) s) (==_iff c k) (λ x. x, λ x. x)).0 h in
      let (body, rest, e, size, all) = IsToken-sound head n s later in
      (body, rest, ap (λ t. c ∷ t) e ∙ ap (λ d. d ∷ (head ++ (body ++ rest))) this, size, all)

  IsToken-complete :
      (head : Text) (n : ℕ) (t : Text)
      → run_of p n t ≡ true
      → after head (run_of p n) (head ++ t) ≡ true
  unfolding after
  IsToken-complete [] n t h = h
  IsToken-complete (k ∷ head) n t h =
      (and_iff (k == k) (after head (run_of p n) (head ++ t)) (==_iff k k) (λ x. x, λ x. x)).1
        (refl, IsToken-complete head n t h)

  IsToken-iff :
      (head : Text) (n : ℕ) (s : Text) → (after head (run_of p n) s ≡ true) ↔ IsToken head P n s
  IsToken-iff head n s = (
    IsToken-sound head n s,
    λ h. rw h.2 (IsToken-complete head n (h.0 ++ h.1) (run_of_complete n h.0 h.1 h.3 h.4)),
  )

secret_at_iff : (s : Text) → (secret_at s ≡ true) ↔ IsSecret s
unfolding secret_at
secret_at_iff s =
    or_iff _ _
      (or_iff _ _
        (IsToken-iff is_low_hex _
          (λ c.
            or_iff (leb b'a' c && leb c b'f') (is_digit c) (Between-iff b'a' b'f' c)
              (Between-iff b'0' b'9' c))
          (codes "sk-") 16 s)
        (IsToken-iff (λ c. is_lower c || is_upper c || is_digit c) _
          (λ c.
            or_iff (is_lower c || is_upper c) (is_digit c)
              (or_iff (is_lower c) (is_upper c) (Between-iff b'a' b'z' c) (Between-iff b'A' b'Z' c))
              (Between-iff b'0' b'9' c))
          (codes "ghp_") 20 s))
      (IsToken-iff (λ c. is_upper c || is_digit c) _
        (λ c. or_iff (is_upper c) (is_digit c) (Between-iff b'A' b'Z' c) (Between-iff b'0' b'9' c))
        (codes "AKIA") 16 s)

pub has_secret_iff : (line : Text) → (has_secret line ≡ true) ↔ HasSecret line
unfolding has_secret
has_secret_iff line = (
  λ h. let (a, t, q, k) = any_suffix_sound secret_at line h in (a, t, q, (secret_at_iff t).0 k),
  λ h. rw h.2 (any_suffix_complete secret_at h.0 h.1 ((secret_at_iff h.1).1 h.3)),
)

-- The name ends as that of a configuration file does.
abbrev pub IsConfig : Text → Type 0
IsConfig name =
    (((EndsIn (codes ".yaml") name ⊎ EndsIn (codes ".yml") name) ⊎ EndsIn (codes ".toml") name)
      ⊎ EndsIn (codes ".ini") name)
    ⊎ EndsIn (codes ".env") name

pub is_config_iff : (name : Text) → (is_config name ≡ true) ↔ IsConfig name
is_config_iff name =
    let each = λ (p : Text). ends_with_iff p name in
    or_iff _ _
      (or_iff _ _
        (or_iff _ _ (or_iff _ _ (each (codes ".yaml")) (each (codes ".yml")))
          (each (codes ".toml")))
        (each (codes ".ini")))
      (each (codes ".env"))

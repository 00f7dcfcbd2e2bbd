-- ===== src/Orchestrator/Glob/Laws.antt =====
-- The matching of patterns against what a pattern means.
use talki_llm_admission_sche.Base.{
  ℕ, ◌≡◌, refl, ap, ◌==◌, ==_iff, ◌↔◌, inl, inr, Bool, true, false, Bool-cases, [], ◌∷◌, ◌++◌,
  arith,
}
use talki_llm_admission_sche.Orchestrator.Text.{Text, is_empty, any_suffix}
use talki_llm_admission_sche.Orchestrator.Glob.{glob, head_is}

-- A text fits a pattern: a `*` stands for any text, and another character for itself.
abbrev pub Fits : Text → Text → Type 0
Fits [] s = s ≡ []
Fits (p ∷ ps) s = elim (p == b'*') [
  | true ↦ (a : Text) × (b : Text) × (s ≡ a ++ b) × Fits ps b
  | false ↦ (b : Text) × (s ≡ p ∷ b) × Fits ps b
]

pub any_suffix_sound :
    (f : Text → Bool) (s : Text)
    → any_suffix f s ≡ true
    → (a : Text) × (b : Text) × (s ≡ a ++ b) × (f b ≡ true)
unfolding any_suffix
any_suffix_sound f [] h = ([], [], refl, h)
any_suffix_sound f (c ∷ s) h = elim (Bool-cases (f (c ∷ s))) [
  | inl e ↦ ([], c ∷ s, refl, e)
  | inr e ↦ let (a, b, q, k) = any_suffix_sound f s (rw e at h) in (c ∷ a, b, ap (λ t. c ∷ t) q, k)
]

pub any_suffix_complete : (f : Text → Bool) (a b : Text) → f b ≡ true → any_suffix f (a ++ b) ≡ true
unfolding any_suffix
any_suffix_complete f [] [] h = h
any_suffix_complete f [] (c ∷ b) h = rw h refl
any_suffix_complete f (c ∷ a) b h = ground (arith, any_suffix_complete f a b h)

is_empty_iff : (s : Text) → (is_empty s ≡ true) ↔ (s ≡ [])
is_empty_iff [] = (λ h. refl, λ h. refl)
is_empty_iff (c ∷ s) = (λ h. absurd (cc), λ h. absurd (cc))

head_is_sound :
    (p : ℕ) (f : Text → Bool) (s : Text)
    → head_is p f s ≡ true
    → (b : Text) × (s ≡ p ∷ b) × (f b ≡ true)
head_is_sound p f [] h = absurd (cc)
head_is_sound p f (c ∷ s) h = (s, ground (arith, ==_iff c p), ground arith)

head_is_complete : (p : ℕ) (f : Text → Bool) (s : Text) → f s ≡ true → head_is p f (p ∷ s) ≡ true
head_is_complete p f s h = ground arith

glob-Fits : (ps s : Text) → glob ps s ≡ true → Fits ps s
unfolding glob
glob-Fits [] s h = (is_empty_iff s).0 h
glob-Fits (p ∷ ps) s h = elim (Bool-cases (p == b'*')) [
  | inl e ↦
      let (a, b, q, k) = any_suffix_sound (glob ps) s (rw (e, glob) at h) in
      rw (e, Fits) (a, b, q, glob-Fits ps b k)
  | inr e ↦
      let (b, q, k) = head_is_sound p (glob ps) s (rw (e, glob) at h) in
      rw (e, Fits) (b, q, glob-Fits ps b k)
]

glob_of_Fits : (ps s : Text) → Fits ps s → glob ps s ≡ true
unfolding glob
glob_of_Fits [] s h = (is_empty_iff s).1 h
glob_of_Fits (p ∷ ps) s h = elim (Bool-cases (p == b'*')) [
  | inl e ↦
      let (a, b, q, k) = rw (e, Fits) at h in
      rw (e, q, glob) (any_suffix_complete (glob ps) a b (glob_of_Fits ps b k))
  | inr e ↦
      let (b, q, k) = rw (e, Fits) at h in
      rw (e, q, glob) (head_is_complete p (glob ps) b (glob_of_Fits ps b k))
]

-- The matcher accepts a text exactly when the text fits the pattern: character by character, with any
-- text in the place of each `*`.
pub glob_iff : (ps s : Text) → (glob ps s ≡ true) ↔ Fits ps s
glob_iff ps s = (glob-Fits ps s, glob_of_Fits ps s)

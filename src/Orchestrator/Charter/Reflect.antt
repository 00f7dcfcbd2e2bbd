-- ===== src/Orchestrator/Charter/Reflect.antt =====
-- What tests on texts say, as propositions.
use talki_llm_admission_sche.Base.{
  ◌≡◌, refl, sym, ◌⊎◌, ◌↔◌, inl, inr, ◌&&◌, ◌||◌, Bool, true, false, [], ◌∷◌, ◌++◌, arith,
}
use talki_llm_admission_sche.Orchestrator.Text.{Text, same_text, starts_with, occurs_in, ends_with}
use talki_llm_admission_sche.Orchestrator.Glob.Laws.{any_suffix_sound, any_suffix_complete}
use talki_llm_admission_sche.Orchestrator.Roles.Laws.{same_text_sound}
use talki_llm_admission_sche.Orchestrator.Budget.Refinement.{same_text_refl}

pub iff_trans {ℓ κ ι} : {A : Type ℓ} {B : Type κ} {C : Type ι} → A ↔ B → B ↔ C → A ↔ C
iff_trans p q = (λ a. q.0 (p.0 a), λ c. p.1 (q.1 c))

pub or_iff {ℓ κ} :
    {P : Type ℓ} {Q : Type κ} (a b : Bool)
    → (a ≡ true) ↔ P
    → (b ≡ true) ↔ Q
    → ((a || b) ≡ true) ↔ (P ⊎ Q)
or_iff true b p q = (λ h. inl (p.0 refl), λ h. refl)
or_iff false b p q =
    (λ h. inr (q.0 h), λ h. elim h [ inl x ↦ (let e = p.1 x in absurd (cc)) | inr y ↦ q.1 y ])

pub and_iff {ℓ κ} :
    {P : Type ℓ} {Q : Type κ} (a b : Bool)
    → (a ≡ true) ↔ P
    → (b ≡ true) ↔ Q
    → ((a && b) ≡ true) ↔ (P × Q)
and_iff true b p q = (λ h. (p.0 refl, q.0 h), λ h. q.1 h.1)
and_iff false b p q = (λ h. absurd (cc), λ h. p.1 h.0)

-- A test fails exactly if what it tests does not hold.
pub fails_iff {ℓ} : {P : Type ℓ} (b : Bool) → (b ≡ true) ↔ P → (b ≡ false) ↔ (¬ P)
fails_iff true p = (λ h. absurd (cc), λ h. absurd (h (p.0 refl)))
fails_iff false p = (λ h x. let e = p.1 x in absurd (cc), λ h. refl)

pub same_text_iff : (s t : Text) → (same_text s t ≡ true) ↔ (s ≡ t)
same_text_iff s t = (same_text_sound s t, λ e. rw e (same_text_refl t))

starts_with_sound : (p s : Text) → starts_with p s ≡ true → (b : Text) × (s ≡ p ++ b)
unfolding starts_with
starts_with_sound [] s h = (s, refl)
starts_with_sound (c ∷ p) [] h = absurd (cc)
starts_with_sound (c ∷ p) (d ∷ s) h =
    let (b, q) = starts_with_sound p s (ground arith) in (b, ground arith)

starts_with_complete : (p b : Text) → starts_with p (p ++ b) ≡ true
unfolding starts_with
starts_with_complete [] b = refl
starts_with_complete (c ∷ p) b = ground (arith, starts_with_complete p b)

-- A text begins with another, ends with another, or has it somewhere.
abbrev pub Begins : Text → Text → Type 0
Begins p s = (b : Text) × (s ≡ p ++ b)

abbrev pub EndsIn : Text → Text → Type 0
EndsIn p s = (a : Text) × (s ≡ a ++ p)

abbrev pub Occurs : Text → Text → Type 0
Occurs p s = (a : Text) × (b : Text) × (s ≡ a ++ (p ++ b))

pub starts_with_iff : (p s : Text) → (starts_with p s ≡ true) ↔ Begins p s
starts_with_iff p s = (starts_with_sound p s, λ h. rw h.1 (starts_with_complete p h.0))

pub occurs_in_iff : (p s : Text) → (occurs_in p s ≡ true) ↔ Occurs p s
occurs_in_iff p s = (
  λ h.
      let (a, t, q, k) = any_suffix_sound (starts_with p) s h in
      let (b, e) = starts_with_sound p t k in (a, b, rw (sym e) q),
  λ h. rw h.2 (any_suffix_complete (starts_with p) h.0 (p ++ h.1) (starts_with_complete p h.1)),
)

pub ends_with_iff : (p s : Text) → (ends_with p s ≡ true) ↔ EndsIn p s
ends_with_iff p s = (
  λ h. let (a, t, q, k) = any_suffix_sound (same_text p) s h in (a, rw (same_text_sound p t k) q),
  λ h. rw h.1 (any_suffix_complete (same_text p) h.0 p (same_text_refl p)),
)

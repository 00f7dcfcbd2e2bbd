-- ===== src/Forwarder/Laws.antt =====
-- The backend that a response names, and the payload that is sent.
use mathlib.Core.Path.{subst}
use talki_llm_admission_sche.Base.{
  ◌≡◌, ◌≢◌, refl, sym, ◌∙◌, ◌↔◌, inl, inr, false, Bool-cases, none, some, List, [], ◌∷◌, codes, ℕ,
}
use talki_llm_admission_sche.Orchestrator.Text.{Text, same_text}
use talki_llm_admission_sche.Orchestrator.Budget.Refinement.{same_text_refl}
use talki_llm_admission_sche.Orchestrator.Roles.Laws.{same_text_sound}
use talki_llm_admission_sche.Forwarder.{
  Response, stripped, or_next, deployment_header, model_header, extract_backend_target, set_entry,
  entry, safe_payload,
}

-- Which text names the backend: a header if it is not blank, or else the next source.
pub data Names {B : Type 0} (r : Response B) : Text → Type 0 where
  by_deployment :
      (c : ℕ) (s : Text) → stripped (r.header deployment_header) ≡ c ∷ s → Names r (c ∷ s)
  by_model :
      (c : ℕ) (s : Text)
      → stripped (r.header deployment_header) ≡ []
      → stripped (r.header model_header) ≡ c ∷ s
      → Names r (c ∷ s)
  by_body :
      (c : ℕ) (s : Text)
      → stripped (r.header deployment_header) ≡ []
      → stripped (r.header model_header) ≡ []
      → stripped r.body_model ≡ c ∷ s
      → Names r (c ∷ s)

named :
    {B : Type 0} (r : Response B) (t : Text) (a b d : Text)
    → stripped (r.header deployment_header) ≡ a
    → stripped (r.header model_header) ≡ b
    → stripped r.body_model ≡ d
    → or_next a (or_next b (or_next d none)) ≡ some t
    → Names r t
named r t [] [] [] p q s h = absurd (cc)
named r t [] [] (c ∷ d) p q s h = subst (Names r) (cc h) (by_body c d p q s)
named r t [] (c ∷ b) d p q s h = subst (Names r) (cc h) (by_model c b p q)
named r t (c ∷ a) b d p q s h = subst (Names r) (cc h) (by_deployment c a p)

backend_found :
    {B : Type 0} (r : Response B) (t : Text) → Names r t → extract_backend_target r ≡ some t
unfolding extract_backend_target
backend_found r t (by_deployment c s p) = rw p refl
backend_found r t (by_model c s p q) = rw (p, q) refl
backend_found r t (by_body c s p q h) = rw (p, q, h) refl

-- The backend of a response is the first of these that is not blank, with the space around it taken off:
-- the header of the deployment, the header of the model, and the model that the body names; and there is
-- none if all three are blank or missing.
pub extract_backend_target_iff :
    {B : Type 0} (r : Response B) (t : Text) → (extract_backend_target r ≡ some t) ↔ Names r t
unfolding extract_backend_target
extract_backend_target_iff r t = (
  named r t (stripped (r.header deployment_header)) (stripped (r.header model_header))
      (stripped r.body_model) refl refl refl,
  backend_found r t,
)

entry-set_entry {ℓ} :
    {A : Type ℓ} (k : Text) (a : A) (d : List (Text × A)) → entry k (set_entry k a d) ≡ some a
unfolding entry set_entry
entry-set_entry k a [] = rw (same_text_refl k, entry, set_entry) refl
entry-set_entry k a ((j, b) ∷ d) = elim (Bool-cases (same_text j k)) [
  | inl e ↦ rw (e, set_entry, entry) (rw e refl)
  | inr e ↦ rw (e, set_entry, entry) (rw e (entry-set_entry k a d))
]

different : (j k : Text) → j ≢ k → same_text j k ≡ false
different j k n = elim (Bool-cases (same_text j k)) [
  | inl e ↦ absurd (n (same_text_sound j k e))
  | inr e ↦ e
]

entry_other {ℓ} :
    {A : Type ℓ} (k m : Text) (a : A) (d : List (Text × A))
    → k ≢ m
    → entry m (set_entry k a d) ≡ entry m d
unfolding entry set_entry
entry_other k m a [] n = rw (different k m n, entry, set_entry) refl
entry_other k m a ((j, b) ∷ d) n = elim (Bool-cases (same_text j k)) [
  | inl e ↦
      let e2 = different j m (λ h. n (sym (same_text_sound j k e) ∙ h)) in
      rw (e, e2, set_entry, entry) refl
  | inr e ↦ elim (Bool-cases (same_text j m)) [
    | inl f ↦ rw (e, f, set_entry, entry) refl
    | inr f ↦ rw (e, f, set_entry, entry) (entry_other k m a d n)
  ]
]

-- The payload that is sent has `stream` false, and all else as it was.
pub safe_payload_lem {ℓ} :
    {A : Type ℓ} (json_false : A) (payload : List (Text × A))
    → (entry (codes "stream") (safe_payload json_false payload) ≡ some json_false)
      × ((k : Text)
          → codes "stream" ≢ k
          → entry k (safe_payload json_false payload) ≡ entry k payload)
unfolding safe_payload
safe_payload_lem json_false payload = (
  entry-set_entry (codes "stream") json_false payload,
  λ k n. entry_other (codes "stream") k json_false payload n,
)

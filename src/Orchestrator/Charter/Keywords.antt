-- ===== src/Orchestrator/Charter/Keywords.antt =====
-- What the regular expression of the words for the production means, with no use of the code.
use talki_llm_admission_sche.Base.{
  ℕ, ◌==◌, ==_iff, ◌≡◌, ◌≢◌, refl, sym, ap, ◌∙◌, ◌↔◌, inl, inr, ◌&&◌, ◌||◌, Bool, true, false, not,
  Bool-cases, List, [], ◌∷◌, ◌++◌, map, codes, Among, if◌then◌else◌,
}
use talki_llm_admission_sche.Orchestrator.Text.{Text}
use talki_llm_admission_sche.Orchestrator.Charter.Rejection.{
  Alphabet, prod_keywords, is_boundary, keyword_at, any_keyword_at, prod_from, has_prod_keyword,
}
use talki_llm_admission_sche.Orchestrator.Charter.Reflect.{or_iff, and_iff}

differ_iff : (a b : Bool) → ((if a then not b else b) ≡ true) ↔ (a ≢ b)
differ_iff true true = (λ h. absurd (cc), λ h. absurd (h refl))
differ_iff true false = (λ h e. absurd (cc), λ h. refl)
differ_iff false true = (λ h e. absurd (cc), λ h. refl)
differ_iff false false = (λ h. absurd (cc), λ h. absurd (h refl))

module _ (ab : Alphabet) where
  -- Whether the last character of a text is of a word, and the first one of a text; `before` for no text.
  abbrev pub ends_word : Bool → Text → Bool
  ends_word before [] = before
  ends_word before (c ∷ s) = ends_word (ab.is_word c) s

  abbrev pub begins_word : Text → Bool
  begins_word [] = false
  begins_word (c ∷ s) = ab.is_word c

  -- The text begins with the word, as IGNORECASE compares it; and there is a border of a word on both sides.
  abbrev pub IsWord : Bool → Text → Text → Type 0
  IsWord before s kw =
      (before ≢ begins_word s)
      × ((m : Text) × (r : Text) × (s ≡ m ++ r)
          × (map ab.fold m ≡ kw)
          × (ends_word before m ≢ begins_word r))

  -- One of the words stands somewhere in the line, by itself.
  abbrev pub HasProdWord : Text → Type 0
  HasProdWord line =
      (a : Text) × (c : ℕ) × (t : Text) × (line ≡ a ++ (c ∷ t))
      × Among (IsWord (ends_word false a) (c ∷ t))
          (map codes ("prod" ∷ "production" ∷ "live" ∷ "mainnet" ∷ []))

  boundary_iff :
      (before : Bool) (s : Text) → (is_boundary ab before s ≡ true) ↔ (before ≢ begins_word s)
  boundary_iff true [] = (λ h e. absurd (cc), λ h. refl)
  boundary_iff false [] = (λ h. absurd (cc), λ h. absurd (h refl))
  boundary_iff before (c ∷ s) = differ_iff before (ab.is_word c)

  keyword_sound :
      (kw : Text) (before : Bool) (s : Text)
      → keyword_at ab kw before s ≡ true
      → (m : Text) × (r : Text) × (s ≡ m ++ r)
        × (map ab.fold m ≡ kw)
        × (ends_word before m ≢ begins_word r)
  unfolding keyword_at
  keyword_sound [] before s h = ([], s, refl, refl, (boundary_iff before s).0 h)
  keyword_sound (k ∷ kw) before [] h = absurd (cc)
  keyword_sound (k ∷ kw) before (c ∷ s) h =
      let (this, later) =
        (and_iff (ab.fold c == k) (keyword_at ab kw (ab.is_word c) s) (==_iff (ab.fold c) k)
            (λ x. x, λ x. x)).0
          h in
      let (m, r, e, same, border) = keyword_sound kw (ab.is_word c) s later in
      (c ∷ m, r, ap (λ t. c ∷ t) e, ap (λ d. d ∷ map ab.fold m) this ∙ ap (λ t. k ∷ t) same, border)

  keyword_complete :
      (m : Text) (before : Bool) (r : Text)
      → ends_word before m ≢ begins_word r
      → keyword_at ab (map ab.fold m) before (m ++ r) ≡ true
  unfolding keyword_at
  keyword_complete [] before r border = (boundary_iff before r).1 border
  keyword_complete (c ∷ m) before r border =
      (and_iff (ab.fold c == ab.fold c) (keyword_at ab (map ab.fold m) (ab.is_word c) (m ++ r))
          (==_iff (ab.fold c) (ab.fold c)) (λ x. x, λ x. x)).1
        (refl, keyword_complete m (ab.is_word c) r border)

  keyword_iff :
      (kw : Text) (before : Bool) (s : Text)
      → ((is_boundary ab before s && keyword_at ab kw before s) ≡ true) ↔ IsWord before s kw
  keyword_iff kw before s =
      and_iff (is_boundary ab before s) (keyword_at ab kw before s) (boundary_iff before s)
        (keyword_sound kw before s, λ h. rw (sym h.3, h.2) (keyword_complete h.0 before h.1 h.4))

  any_keyword_iff :
      (kws : List Text) (before : Bool) (s : Text)
      → (any_keyword_at ab kws before s ≡ true) ↔ Among (IsWord before s) kws
  unfolding any_keyword_at
  any_keyword_iff [] before s = (λ h. absurd (cc), λ h. elim h [ ])
  any_keyword_iff (kw ∷ kws) before s =
      or_iff (is_boundary ab before s && keyword_at ab kw before s) (any_keyword_at ab kws before s)
        (keyword_iff kw before s) (any_keyword_iff kws before s)

  prod_sound :
      (before : Bool) (s : Text)
      → prod_from ab before s ≡ true
      → (a : Text) × (c : ℕ) × (t : Text) × (s ≡ a ++ (c ∷ t))
        × Among (IsWord (ends_word before a) (c ∷ t)) prod_keywords
  unfolding prod_from
  prod_sound before [] h = absurd (cc)
  prod_sound before (c ∷ s) h = elim (Bool-cases (any_keyword_at ab prod_keywords before (c ∷ s))) [
    | inl e ↦ ([], c, s, refl, (any_keyword_iff prod_keywords before (c ∷ s)).0 e)
    | inr e ↦
        let (a, d, t, q, k) = prod_sound (ab.is_word c) s (rw (e, prod_from) at h) in
        (c ∷ a, d, t, ap (λ u. c ∷ u) q, k)
  ]

  prod_complete :
      (a : Text) (before : Bool) (c : ℕ) (t : Text)
      → Among (IsWord (ends_word before a) (c ∷ t)) prod_keywords
      → prod_from ab before (a ++ (c ∷ t)) ≡ true
  unfolding prod_from
  prod_complete [] before c t h =
      let now = (any_keyword_iff prod_keywords before (c ∷ t)).1 h in rw now refl
  prod_complete (d ∷ a) before c t h =
      or_right (any_keyword_at ab prod_keywords before (d ∷ (a ++ (c ∷ t)))) _
        (prod_complete a (ab.is_word d) c t h)
    where
      or_right : (p q : Bool) → q ≡ true → (p || q) ≡ true
      or_right true q h = refl
      or_right false q h = h

  pub has_prod_keyword_iff : (line : Text) → (has_prod_keyword ab line ≡ true) ↔ HasProdWord line
  has_prod_keyword_iff line =
      (prod_sound false line, λ h. rw h.3 (prod_complete h.0 false h.1 h.2 h.4))

-- ===== src/Orchestrator/Charter/Rejected.antt =====
-- What section 4 of the charter closes.
use talki_llm_admission_sche.Base.{
  ◌≡◌, refl, ◌↔◌, ◌&&◌, not, Bool, true, Bool-cases, inl, inr, none, List, All,
}
use talki_llm_admission_sche.Orchestrator.Text.{Text, splitlines}
use talki_llm_admission_sche.Orchestrator.Charter.{
  ChangedFile, Reason, unless, secret_in, prod_like_in, first_reason, check_zone,
  forbidden_patterns, is_added,
}
use talki_llm_admission_sche.Orchestrator.Charter.Rejection.{
  Alphabet, has_secret, has_prod_keyword, is_config, check_secrets, check_config, check_charter_4,
}
use talki_llm_admission_sche.Orchestrator.Charter.Reflect.{iff_trans, and_iff, fails_iff}
use talki_llm_admission_sche.Orchestrator.Charter.Meaning.{IsAdded, is_added_iff}
use talki_llm_admission_sche.Orchestrator.Charter.Traces.{
  HasSecret, has_secret_iff, IsConfig, is_config_iff,
}
use talki_llm_admission_sche.Orchestrator.Charter.Keywords.{HasProdWord, has_prod_keyword_iff}
use talki_llm_admission_sche.Orchestrator.Charter.Laws.{
  IsFree, check_zone_iff, first_reason_iff, refused_unless, both_iff,
}

-- No added line of a file has a property.
abbrev pub NoAdded : (Text → Type 0) → ChangedFile → Type 0
NoAdded Bad f = All (λ line. ¬ (IsAdded line × Bad line)) (splitlines f.patch)

-- What section 4 of the charter asks of every pull request.
pub record IsTolerable (ab : Alphabet) (files : List ChangedFile) : Type 0 where
  pub zones : All (λ f. IsFree forbidden_patterns f.filename) files
  pub secrets : All (NoAdded HasSecret) files
  pub configs : All (λ f. IsConfig f.filename → NoAdded (HasProdWord ab) f) files

-- A check of the added lines passes if none has what it looks for.
added_iff :
    (bad : Text → Bool) (Bad : Text → Type 0) (e : Reason) (f : ChangedFile)
    → ((line : Text) → (bad line ≡ true) ↔ Bad line)
    → (first_reason (λ line. unless (not (is_added line && bad line)) e) (splitlines f.patch)
        ≡ none)
      ↔ NoAdded Bad f
added_iff bad Bad e f each =
    first_reason_iff (λ line. ¬ (IsAdded line × Bad line))
      (λ line. unless (not (is_added line && bad line)) e)
      (λ line.
        refused_unless (is_added line && bad line) e
          (and_iff (is_added line) (bad line) (is_added_iff line) (each line)))
      (splitlines f.patch)

check_config_iff :
    (ab : Alphabet) (f : ChangedFile)
    → (check_config ab f ≡ none) ↔ (IsConfig f.filename → NoAdded (HasProdWord ab) f)
check_config_iff ab f = elim (Bool-cases (is_config f.filename)) [
  | inl e ↦
      let lines =
        added_iff (has_prod_keyword ab) (HasProdWord ab) (prod_like_in f.filename) f
          (has_prod_keyword_iff ab) in
      let config = (is_config_iff f.filename).0 e in
      rw (e, check_config) (λ h c. lines.0 h, λ h. lines.1 (h config))
  | inr e ↦
      let other = (fails_iff (is_config f.filename) (is_config_iff f.filename)).0 e in
      rw (e, check_config) (λ h c. absurd (other c), λ h. refl)
]

-- check_charter_4 lets a pull request pass exactly when no changed path fits a pattern of the forbidden zones;
-- no added line has in it `sk-` with 16 characters of a-f and 0-9, `ghp_` with 20 letters or digits, or `AKIA` with 16
-- capitals or digits; and no added line of a file whose name ends in .yaml, .yml, .toml, .ini or .env has one of
-- the words prod, production, live and mainnet by itself, in capitals or not. What a letter of a word is, and what its
-- case is compared as, is given by the alphabet.
pub check_charter_4_iff :
    (ab : Alphabet) (files : List ChangedFile)
    → (check_charter_4 ab files ≡ none) ↔ IsTolerable ab files
unfolding check_charter_4
check_charter_4_iff ab files =
    let secrets =
      first_reason_iff (NoAdded HasSecret) check_secrets
        (λ f. added_iff has_secret HasSecret (secret_in f.filename) f has_secret_iff) files in
    let configs =
      first_reason_iff (λ f. IsConfig f.filename → NoAdded (HasProdWord ab) f) (check_config ab)
        (check_config_iff ab) files in
    let zones =
      first_reason_iff (λ f. IsFree forbidden_patterns f.filename) check_zone check_zone_iff
        files in
    iff_trans
      (both_iff (first_reason check_zone files) _ zones (
        both_iff (first_reason check_secrets files) (first_reason (check_config ab) files) secrets
          configs))
      (
        λ h. record { zones = h.0; secrets = h.1.0; configs = h.1.1 },
        λ m. (m.zones, (m.secrets, m.configs)),
      )

-- ===== src/Orchestrator/Charter/Rejection.antt =====
-- Section 4 of the charter: the pull requests that are closed at once.
use talki_llm_admission_sche.Base.{
  ℕ, zero, suc, ◌==◌, leb, ◌&&◌, ◌||◌, Bool, true, false, not, Option, none, List, [], ◌∷◌, map,
  codes, if◌then◌else◌,
}
use talki_llm_admission_sche.Orchestrator.Text.{Text, any_suffix, ends_with, splitlines}
use talki_llm_admission_sche.Orchestrator.Charter.{
  ChangedFile, Reason, secret_in, prod_like_in, check_zone, first_reason, matches_forbidden,
  ◌or_else◌, unless, is_added,
}

-- A regular expression that is a text and then something else.
unfoldable pub after : Text → (Text → Bool) → Text → Bool
after [] f s = f s
after (c ∷ p) f [] = false
after (c ∷ p) f (d ∷ s) = (d == c) && after p f s

-- At least `n` characters of a class.
unfoldable pub run_of : (ℕ → Bool) → ℕ → Text → Bool
run_of p zero s = true
run_of p (suc n) [] = false
run_of p (suc n) (c ∷ s) = p c && run_of p n s

abbrev pub is_digit : ℕ → Bool
is_digit c = leb b'0' c && leb c b'9'

abbrev pub is_upper : ℕ → Bool
is_upper c = leb b'A' c && leb c b'Z'

abbrev pub is_lower : ℕ → Bool
is_lower c = leb b'a' c && leb c b'z'

abbrev pub is_low_hex : ℕ → Bool
is_low_hex c = (leb b'a' c && leb c b'f') || is_digit c

-- SECRET_REGEX, at the head of a text
unfoldable pub secret_at : Text → Bool
unfolding after run_of
secret_at s =
    after (codes "sk-") (run_of is_low_hex 16) s
    || after (codes "ghp_") (run_of (λ c. is_lower c || is_upper c || is_digit c) 20) s
    || after (codes "AKIA") (run_of (λ c. is_upper c || is_digit c) 16) s

unfoldable pub has_secret : Text → Bool
unfolding secret_at any_suffix
has_secret line = any_suffix secret_at line

-- What a regular expression makes of a character outside ASCII: whether it is of the class `\w`, and
-- what IGNORECASE compares it as.
pub record Alphabet : Type 0 where
  pub is_word : ℕ → Bool
  pub fold : ℕ → ℕ

abbrev pub prod_keywords : List Text
prod_keywords = map codes ("prod" ∷ "production" ∷ "live" ∷ "mainnet" ∷ [])

-- `\b`, between a character and the text after it
abbrev pub is_boundary : Alphabet → Bool → Text → Bool
is_boundary ab before [] = before
is_boundary ab before (c ∷ s) = if before then not (ab.is_word c) else ab.is_word c

unfoldable pub keyword_at : Alphabet → Text → Bool → Text → Bool
keyword_at ab [] before s = is_boundary ab before s
keyword_at ab (k ∷ kw) before [] = false
keyword_at ab (k ∷ kw) before (c ∷ s) = (ab.fold c == k) && keyword_at ab kw (ab.is_word c) s

unfoldable pub any_keyword_at : Alphabet → List Text → Bool → Text → Bool
unfolding keyword_at
any_keyword_at ab [] before s = false
any_keyword_at ab (kw ∷ kws) before s =
    (is_boundary ab before s && keyword_at ab kw before s) || any_keyword_at ab kws before s

unfoldable pub prod_from : Alphabet → Bool → Text → Bool
unfolding any_keyword_at
prod_from ab before [] = false
prod_from ab before (c ∷ s) =
    any_keyword_at ab prod_keywords before (c ∷ s) || prod_from ab (ab.is_word c) s

-- `BAD_PROD_KEYWORDS.search(line)`
abbrev pub has_prod_keyword : Alphabet → Text → Bool
has_prod_keyword ab line = prod_from ab false line

-- CONFIG_EXTS
abbrev pub is_config : Text → Bool
is_config name =
    ends_with (codes ".yaml") name
    || ends_with (codes ".yml") name
    || ends_with (codes ".toml") name
    || ends_with (codes ".ini") name
    || ends_with (codes ".env") name

abbrev pub check_secret : Text → Text → Option Reason
check_secret filename line = unless (not (is_added line && has_secret line)) (secret_in filename)

abbrev pub check_secrets : ChangedFile → Option Reason
check_secrets f = first_reason (check_secret f.filename) (splitlines f.patch)

abbrev pub check_prod : Alphabet → Text → Text → Option Reason
check_prod ab filename line =
    unless (not (is_added line && has_prod_keyword ab line)) (prod_like_in filename)

abbrev pub check_config : Alphabet → ChangedFile → Option Reason
check_config ab f = elim (is_config f.filename) [
  | true ↦ first_reason (check_prod ab f.filename) (splitlines f.patch)
  | false ↦ none
]

unfoldable pub check_charter_4 : Alphabet → List ChangedFile → Option Reason
unfolding first_reason matches_forbidden has_secret prod_from
check_charter_4 ab files =
    first_reason check_zone files
    or_else first_reason check_secrets files
    or_else first_reason (check_config ab) files

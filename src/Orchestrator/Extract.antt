-- ===== src/Orchestrator/Extract.antt =====
-- `_extract_json` of orchestrator/roles/backend.py and of orchestrator/roles/triage.py: the JSON in the text of a
-- language model, by the two regular expressions `JSON_RE`. `json.loads` is an argument.
use talki_llm_admission_sche.Base.{
  ◌==◌, ◌≡◌, refl, false, Option, none, some, [], ◌∷◌, ◌++◌, All, if◌then◌else◌,
}
use talki_llm_admission_sche.Orchestrator.Text.{Text}

abbrev read {ℓ κ} : {A : Type ℓ} {B : Type κ} → Option A → (A → Option B) → Option B
read none f = none
read (some a) f = f a

-- The text from its first opening brace on.
unfoldable from_brace : Text → Option Text
from_brace [] = none
from_brace (c ∷ s) = if c == b'{' then some (c ∷ s) else from_brace s

-- The text up to its last closing brace.
unfoldable up_to_last_brace : Text → Option Text
up_to_last_brace [] = none
up_to_last_brace (c ∷ s) = elim (up_to_last_brace s) [
  | some r ↦ some (c ∷ r)
  | none ↦ if c == b'}' then some (c ∷ []) else none
]

-- The text up to its first closing brace.
unfoldable up_to_first_brace : Text → Option Text
up_to_first_brace [] = none
up_to_first_brace (c ∷ s) =
    let rest = up_to_first_brace s in
    if c == b'}' then some (c ∷ []) else read rest (λ r. some (c ∷ r))

-- The match of the backend's `\{.*\}`: the longest one, which begins at the first opening brace.
unfoldable long_block : Text → Option Text
unfolding from_brace up_to_last_brace
long_block t = read (from_brace t) up_to_last_brace

-- The match of triage's `\{.*?\}`: the shortest one from the first opening brace on.
unfoldable short_block : Text → Option Text
unfolding from_brace up_to_first_brace
short_block t = read (from_brace t) up_to_first_brace

-- `_extract_json` of the backend agent, where `loads` is none for a JSONDecodeError
unfoldable extract_long : {A : Type 0} → (Text → Option A) → Text → Option A
unfolding long_block
extract_long loads t = read (long_block t) loads

-- `_extract_json` of the triage agent
unfoldable extract_short : {A : Type 0} → (Text → Option A) → Text → Option A
unfolding short_block
extract_short loads t = read (short_block t) loads

from_brace-append :
    (a r : Text) → All (λ c. (c == b'{') ≡ false) a → from_brace (a ++ b'{' ∷ r) ≡ some (b'{' ∷ r)
unfolding from_brace
from_brace-append [] r none_in = refl
from_brace-append (c ∷ a) r (n, none_in) = rw n (from_brace-append a r none_in)

up_to_last_brace-none : (s : Text) → All (λ c. (c == b'}') ≡ false) s → up_to_last_brace s ≡ none
unfolding up_to_last_brace
up_to_last_brace-none [] none_in = refl
up_to_last_brace-none (c ∷ s) (n, none_in) = rw (up_to_last_brace-none s none_in, n) refl

up_to_last_brace-append :
    (m s : Text)
    → All (λ c. (c == b'}') ≡ false) s
    → up_to_last_brace (m ++ b'}' ∷ s) ≡ some (m ++ b'}' ∷ [])
unfolding up_to_last_brace
up_to_last_brace-append [] s none_in = rw (up_to_last_brace-none s none_in) refl
up_to_last_brace-append (c ∷ m) s none_in = rw (up_to_last_brace-append m s none_in) refl

up_to_first_brace-append :
    (m s : Text)
    → All (λ c. (c == b'}') ≡ false) m
    → up_to_first_brace (m ++ b'}' ∷ s) ≡ some (m ++ b'}' ∷ [])
unfolding up_to_first_brace
up_to_first_brace-append [] s none_in = refl
up_to_first_brace-append (c ∷ m) s (n, none_in) = rw (n, up_to_first_brace-append m s none_in) refl

-- The backend agent gives to json.loads all between the outermost braces of the text.
extract_long-between :
    {A : Type 0} (loads : Text → Option A) (a m s : Text)
    → All (λ c. (c == b'{') ≡ false) a
    → All (λ c. (c == b'}') ≡ false) s
    → extract_long loads (a ++ b'{' ∷ (m ++ b'}' ∷ s)) ≡ loads (b'{' ∷ (m ++ b'}' ∷ []))
unfolding extract_long long_block
extract_long-between loads a m s no_open no_close =
    rw (from_brace-append a (m ++ b'}' ∷ s) no_open, up_to_last_brace-append (b'{' ∷ m) s no_close)
      refl

-- The triage agent gives to json.loads what stands before the first closing brace, also where that brace is part of a
-- text or ends an inner object.
extract_short-cut :
    {A : Type 0} (loads : Text → Option A) (a m s : Text)
    → All (λ c. (c == b'{') ≡ false) a
    → All (λ c. (c == b'}') ≡ false) m
    → extract_short loads (a ++ b'{' ∷ (m ++ b'}' ∷ s)) ≡ loads (b'{' ∷ (m ++ b'}' ∷ []))
unfolding extract_short short_block
extract_short-cut loads a m s no_open no_close =
    rw
      (
        from_brace-append a (m ++ b'}' ∷ s) no_open,
        up_to_first_brace-append (b'{' ∷ m) s (refl, no_close),
      )
      refl

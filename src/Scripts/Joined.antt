-- ===== src/Scripts/Joined.antt =====
-- The text that evalsha_enqueue_job joins and the Lua script splits.
use Prim.Native.Char.{code, nul}
use Prim.Native.String.{◌++◌}
use text.Mathlib.TextLemmas.{append_assoc, append-nil, nil-append, cons-append}
use talki_llm_admission_sche.Base.{
  ◌≡◌, refl, ap, ◌∙◌, false, some, List, [], ◌∷◌, String, ◌==◌, str_eq, All,
}
use talki_llm_admission_sche.Redis.{Fields}
use talki_llm_admission_sche.Scripts.Text.{
  nul_text, join_nul, tokens, tokens_from, drop_empty, pairs, flat,
}

-- A text with no NUL in it.
abbrev pub HasNoNul : String → Type 0
HasNoNul String.[] = Unit
HasNoNul (String.◌∷◌ c t) = ((code c == 0) ≡ false) × HasNoNul t

-- A field's name or value that survives the trip: not empty, and with no NUL.
abbrev pub IsPlain : String → Type 0
IsPlain x = (str_eq x "" ≡ false) × HasNoNul x

nul_text-append : (t : String) → nul_text ++ t ≡ String.◌∷◌ nul t
nul_text-append t = cons-append nul String.[] t ∙ ap (String.◌∷◌ nul) (nil-append t)

-- A NUL ends the run that stands before it.
tokens_from-append :
    (run x t : String)
    → HasNoNul x
    → tokens_from run (x ++ (nul_text ++ t)) ≡ (run ++ x) ∷ tokens_from String.[] t
unfolding tokens_from
tokens_from-append run String.[] t h = simp (nil-append, append-nil) (rw (nul_text-append t))
tokens_from-append run (String.◌∷◌ c x) t h = rw cons-append (
    rw (h.0, tokens_from)
      (rw (tokens_from-append (run ++ String.◌∷◌ c String.[]) x t h.1)
        (simp (append_assoc, cons-append, nil-append))))

-- Splitting gives back what was joined.
tokens-join_nul :
    (x : String) (l : List String)
    → All HasNoNul (x ∷ l)
    → tokens (join_nul (x ∷ l) ++ nul_text) ≡ x ∷ l
unfolding tokens join_nul
tokens-join_nul x [] h =
    rw (← append-nil nul_text) (rw (tokens_from-append String.[] x String.[] h.0) (simp nil-append))
tokens-join_nul x (y ∷ l) h = simp append_assoc (
    rw (tokens_from-append String.[] x _ h.0)
      (rw (nil-append x) (ap (◌∷◌ x) (tokens-join_nul y l h.1))))

drop_empty_plain : (l : List String) → All IsPlain l → drop_empty l ≡ l
unfolding drop_empty
drop_empty_plain [] h = refl
drop_empty_plain (x ∷ l) h = rw (h.0.0, drop_empty_plain l h.1)

pairs-flat : (f v : String) (fs : Fields) → pairs (flat ((f, v) ∷ fs)) ≡ some ((f, v) ∷ fs)
unfolding pairs flat
pairs-flat f v [] = refl
pairs-flat f v ((g, w) ∷ fs) = rw (pairs-flat g w fs)

-- Every field has a plain name and a plain value.
abbrev pub IsPlainField : String × String → Type 0
IsPlainField (f, v) = IsPlain f × IsPlain v

flat-IsPlain : (fs : Fields) → All IsPlainField fs → All IsPlain (flat fs)
unfolding flat
flat-IsPlain [] h = tt
flat-IsPlain ((f, v) ∷ fs) h = (h.0.0, (h.0.1, flat-IsPlain fs h.1))

no_nul_of_plain : (l : List String) → All IsPlain l → All HasNoNul l
no_nul_of_plain [] h = tt
no_nul_of_plain (x ∷ l) h = (h.0.1, no_nul_of_plain l h.1)

-- The script reads back the fields that the client joined, if there is a field and no name and no
-- value is empty or has a NUL.
pub pairs-join_nul :
    (f v : String) (fs : Fields)
    → All IsPlainField ((f, v) ∷ fs)
    → pairs (drop_empty (tokens (join_nul (flat ((f, v) ∷ fs)) ++ nul_text))) ≡ some ((f, v) ∷ fs)
unfolding flat
pairs-join_nul f v fs h =
    let plain = flat-IsPlain ((f, v) ∷ fs) h in
    rw (tokens-join_nul f (v ∷ flat fs) (no_nul_of_plain (f ∷ v ∷ flat fs) plain))
      (rw (drop_empty_plain (f ∷ v ∷ flat fs) plain) (pairs-flat f v fs))

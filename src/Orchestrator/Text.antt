-- ===== src/Orchestrator/Text.antt =====
-- What the orchestrator uses of Python's texts, on lists of code points.
use talki_llm_admission_sche.Base.{
  ℕ, ◌==◌, leb, ◌&&◌, ◌||◌, Bool, true, false, List, [], ◌∷◌, ◌++◌, if◌then◌else◌,
}

abbrev pub Text : Type 0
Text = List ℕ

abbrev pub is_empty : Text → Bool
is_empty [] = true
is_empty (c ∷ s) = false

-- `s == t`
unfoldable pub same_text : Text → Text → Bool
same_text [] [] = true
same_text [] (d ∷ t) = false
same_text (c ∷ s) [] = false
same_text (c ∷ s) (d ∷ t) = (c == d) && same_text s t

-- `s.startswith(p)`
unfoldable pub starts_with : Text → Text → Bool
starts_with [] s = true
starts_with (c ∷ p) [] = false
starts_with (c ∷ p) (d ∷ s) = (c == d) && starts_with p s

-- Whether a test holds of a suffix of a text, the text itself and the empty one included.
unfoldable pub any_suffix : (Text → Bool) → Text → Bool
any_suffix f [] = f []
any_suffix f (c ∷ s) = f (c ∷ s) || any_suffix f s

-- `p in s`
abbrev pub occurs_in : Text → Text → Bool
occurs_in p s = any_suffix (starts_with p) s

-- `s.endswith(p)`
abbrev pub ends_with : Text → Text → Bool
ends_with p s = any_suffix (same_text p) s

-- `str.isspace` of a code point, by which `strip` goes.
abbrev pub is_space : ℕ → Bool
is_space c =
    (leb 9 c && leb c 13)
    || (leb 28 c && leb c 32)
    || (c == 133)
    || (c == 160)
    || (c == 5760)
    || (leb 8192 c && leb c 8202)
    || (c == 8232)
    || (c == 8233)
    || (c == 8239)
    || (c == 8287)
    || (c == 12288)

unfoldable pub lstrip_by : (ℕ → Bool) → Text → Text
lstrip_by p [] = []
lstrip_by p (c ∷ s) = if p c then lstrip_by p s else c ∷ s

unfoldable pub rstrip_by : (ℕ → Bool) → Text → Text
rstrip_by p [] = []
rstrip_by p (c ∷ s) = let r = rstrip_by p s in if is_empty r && p c then [] else c ∷ r

-- `s.strip()`
unfoldable pub strip : Text → Text
unfolding lstrip_by rstrip_by
strip s = rstrip_by is_space (lstrip_by is_space s)

-- The line ends of `splitlines`; the pair CR LF is one of them.
abbrev pub is_line_end : ℕ → Bool
is_line_end c =
    (leb 10 c && leb c 13) || (leb 28 c && leb c 30) || (c == 133) || (c == 8232) || (c == 8233)

-- The lines of a text, of which `line` is the line so far: a last line that is empty is none.
unfoldable pub lines_from : Text → Bool → Text → List Text
lines_from line after_cr [] = if is_empty line then [] else line ∷ []
lines_from line after_cr (c ∷ s) = elim (after_cr && (c == 10)) [
  | true ↦ lines_from line false s
  | false ↦ elim (is_line_end c) [
    | true ↦ line ∷ lines_from [] (c == 13) s
    | false ↦ lines_from (line ++ (c ∷ [])) false s
  ]
]

-- `s.splitlines()`
unfoldable pub splitlines : Text → List Text
unfolding lines_from
splitlines s = lines_from [] false s

-- `s.split("/")[-1]`
unfoldable pub base_name_from : Text → Text → Text
base_name_from part [] = part
base_name_from part (c ∷ s) = base_name_from (if c == b'/' then [] else part ++ (c ∷ [])) s

unfoldable pub base_name : Text → Text
unfolding base_name_from
base_name s = base_name_from [] s

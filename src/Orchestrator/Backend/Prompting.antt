-- ===== src/Orchestrator/Backend/Prompting.antt =====
-- The parts of orchestrator/roles/backend.py that make the texts for the language model: the comments of an
-- issue, the tree of the repository and the command of the tests. `textwrap.shorten` and the sorted listing of a folder
-- are arguments.
use talki_llm_admission_sche.Base.{
  ℕ, zero, suc, ◌+◌, ◌-◌, ◌≤◌, ◌<◌, leb, ◌||◌, Bool, true, false, Bool-cases, inl, inr, Option,
  none, some, List, [], ◌∷◌, ◌++◌, codes, length, if◌then◌else◌, arith,
}
use talki_llm_admission_sche.Base.Int.{pos}
use talki_llm_admission_sche.Base.Decimal
use talki_llm_admission_sche.Orchestrator.Text.{
  Text, is_empty, same_text, strip, lstrip_by, rstrip_by,
}

-- A comment, with the login of its user and its body, each of which may be missing.
pub record IssueComment : Type 0 where
  pub login : Option Text
  pub body : Option Text

abbrev or_empty : Option Text → Text
or_empty none = []
or_empty (some t) = t

abbrev or_unknown : Text → Text
or_unknown t = if is_empty t then codes "?" else t

-- `comments[-10:]`
unfoldable pub drop : {A : Type 0} → ℕ → List A → List A
drop zero l = l
drop (suc n) [] = []
drop (suc n) (x ∷ l) = drop n l

abbrev pub last_ten : {A : Type 0} → List A → List A
last_ten l = drop (length l - 10) l

abbrev pub comment_line : (Text → Text) → IssueComment → Text → List Text
comment_line shorten c body =
    if is_empty body
    then []
    else (codes "- @" ++ or_unknown (or_empty c.login) ++ codes ": " ++ shorten body) ∷ []

unfoldable pub comment_lines : (Text → Text) → List IssueComment → List Text
unfolding strip lstrip_by rstrip_by
comment_lines shorten [] = []
comment_lines shorten (c ∷ cs) =
    comment_line shorten c (strip (or_empty c.body)) ++ comment_lines shorten cs

-- `"\n".join(lines)`
unfoldable pub join_lines : List Text → Text
join_lines [] = []
join_lines (l ∷ []) = l
join_lines (l ∷ k ∷ ls) = l ++ b'\n' ∷ join_lines (k ∷ ls)

abbrev or_text : Text → Text → Text
or_text t d = if is_empty t then d else t

-- `_format_comments`
unfoldable pub format_comments : (Text → Text) → List IssueComment → Text
unfolding comment_lines join_lines drop
format_comments shorten [] = codes "(aucun commentaire)"
format_comments shorten (c ∷ cs) =
    or_text (join_lines (comment_lines shorten (last_ten (c ∷ cs))))
      (codes "(aucun commentaire significatif)")

-- An entry below a folder: the parts of its path, whether it is a file, and its path from the folder's parent.
pub record Entry : Type 0 where
  pub parts : List Text
  pub is_file : Bool
  pub shown : Text

unfoldable pub has_part : Text → List Text → Bool
unfolding same_text
has_part name [] = false
has_part name (p ∷ parts) = same_text p name || has_part name parts

abbrev pub in_cache : Entry → Bool
in_cache e = has_part (codes "__pycache__") e.parts || has_part (codes ".pytest_cache") e.parts

abbrev pub truncated : ℕ → Text
truncated max_lines =
    codes "… (tronqué à " ++ codes (Decimal.str (pos max_lines)) ++ codes " entrées)"

-- The lines of the loop, after `n` lines.
unfoldable pub tree_lines : ℕ → ℕ → List Entry → List Text
unfolding has_part
tree_lines max_lines n [] = []
tree_lines max_lines n (e ∷ es) = elim (in_cache e) [
  | true ↦ tree_lines max_lines n es
  | false ↦ elim e.is_file [
    | true ↦ e.shown ∷ (elim (leb max_lines (suc n)) [
      | true ↦ truncated max_lines ∷ []
      | false ↦ tree_lines max_lines (suc n) es
    ])
    | false ↦ elim (leb max_lines n) [
      | true ↦ truncated max_lines ∷ []
      | false ↦ tree_lines max_lines n es
    ]
  ]
]

-- `_repo_tree`, of a folder that is there with its sorted entries, or is not
unfoldable pub repo_tree : ℕ → Option (List Entry) → Text
unfolding tree_lines join_lines
repo_tree max_lines none = codes "(répertoire absent)"
repo_tree max_lines (some entries) = join_lines (tree_lines max_lines 0 entries)

-- `_resolve_pytest_cmd`, by whether the worktree has the interpreter of the venv
unfoldable pub resolve_pytest_cmd : Text → Bool → List Text
resolve_pytest_cmd venv_py there =
    (if there then venv_py else codes "python3") ∷ codes "-m" ∷ codes "pytest" ∷ []

-- The tree never has more than `max_lines` lines and the line that says it is cut.
tree_lines_short :
    (max_lines n : ℕ) (es : List Entry)
    → n < max_lines
    → n + length (tree_lines max_lines n es) ≤ suc max_lines
unfolding tree_lines
tree_lines_short max_lines n [] lt = omega arith
tree_lines_short max_lines n (e ∷ es) lt = elim (Bool-cases (in_cache e)) [
  | inl c ↦ rw (c, length) (tree_lines_short max_lines n es lt)
  | inr k ↦ elim (Bool-cases e.is_file) [
    | inl f ↦ elim (Bool-cases (leb max_lines (suc n))) [
      | inl full ↦ rw (k, f, full, length) (omega arith)
      | inr room ↦
          rw (k, f, room, length)
            (omega (arith, tree_lines_short max_lines (suc n) es (ground arith)))
    ]
    | inr f ↦ elim (Bool-cases (leb max_lines n)) [
      | inl full ↦ rw (k, f, full, length) (ground arith)
      | inr room ↦ rw (k, f, room, length) (tree_lines_short max_lines n es lt)
    ]
  ]
]

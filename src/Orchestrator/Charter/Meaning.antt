-- ===== src/Orchestrator/Charter/Meaning.antt =====
-- What the words of section 3 of the charter mean, with no use of the code.
use talki_llm_admission_sche.Base.{
  ◌≡◌, refl, ◌⊎◌, ◌↔◌, ◌||◌, Bool, true, false, not, Option, none, some, List, [], ◌∷◌, ◌++◌, map,
  codes, Among,
}
use talki_llm_admission_sche.Orchestrator.Text.{Text, same_text, starts_with, occurs_in, base_name}
use talki_llm_admission_sche.Orchestrator.Charter.{
  ChangedFile, is_one_of, agent_names, is_agent_pr, is_passing, is_dependency_file,
  changes_dependency, is_added, is_placeholder, has_todo,
}
use talki_llm_admission_sche.Orchestrator.Charter.Reflect.{
  iff_trans, or_iff, and_iff, fails_iff, same_text_iff, Begins, starts_with_iff, Occurs,
  occurs_in_iff,
}

-- The text is one of those, perhaps with a line feed at its end.
abbrev pub IsLine : List Text → Text → Type 0
IsLine names s = Among (λ n. (s ≡ n) ⊎ (s ≡ n ++ (10 ∷ []))) names

-- The logins of agents.
abbrev pub IsAgent : Text → Type 0
IsAgent login =
    IsLine
      (map codes (
        "kola-ceo-agent" ∷ "kola-backend-agent" ∷ "kola-frontend-agent" ∷ "kola-qa-agent"
        ∷ "kola-doc-agent" ∷ "kola-triage-agent" ∷ []))
      login
    ⊎ Begins (codes "kola-team-bot") login

is_one_of_iff : (names : List Text) (s : Text) → (is_one_of names s ≡ true) ↔ IsLine names s
unfolding is_one_of
is_one_of_iff [] s = (λ h. absurd (cc), λ h. elim h [ ])
is_one_of_iff (n ∷ names) s =
    or_iff (same_text s n || same_text s (n ++ (10 ∷ []))) (is_one_of names s)
      (or_iff (same_text s n) (same_text s (n ++ (10 ∷ []))) (same_text_iff s n)
        (same_text_iff s (n ++ (10 ∷ []))))
      (is_one_of_iff names s)

pub is_agent_pr_iff : (login : Text) → (is_agent_pr login ≡ true) ↔ IsAgent login
unfolding is_agent_pr
is_agent_pr_iff login =
    or_iff (is_one_of agent_names login) (starts_with (codes "kola-team-bot") login)
      (is_one_of_iff agent_names login) (starts_with_iff (codes "kola-team-bot") login)

-- A check run has one of the three conclusions.
abbrev pub IsPassing : Option Text → Type 0
IsPassing none = ⊥
IsPassing (some c) = ((c ≡ codes "success") ⊎ (c ≡ codes "skipped")) ⊎ (c ≡ codes "neutral")

pub is_passing_iff : (o : Option Text) → (is_passing o ≡ true) ↔ IsPassing o
is_passing_iff none = (λ h. absurd (cc), λ h. elim h [ ])
is_passing_iff (some c) =
    or_iff (same_text c (codes "success") || same_text c (codes "skipped"))
      (same_text c (codes "neutral"))
      (or_iff (same_text c (codes "success")) (same_text c (codes "skipped"))
        (same_text_iff c (codes "success")) (same_text_iff c (codes "skipped")))
      (same_text_iff c (codes "neutral"))

-- The last part of the path is the name of a dependency file, which is added or modified.
abbrev pub ChangesDependency : ChangedFile → Type 0
ChangesDependency f =
    let base = base_name f.filename in
    (((base ≡ codes "package.json") ⊎ (base ≡ codes "requirements.txt"))
      ⊎ (base ≡ codes "pyproject.toml"))
    × ((f.status ≡ codes "added") ⊎ (f.status ≡ codes "modified"))

pub changes_dependency_iff : (f : ChangedFile) → (changes_dependency f ≡ true) ↔ ChangesDependency f
changes_dependency_iff f =
    let base = base_name f.filename in
    and_iff (is_dependency_file base)
      (same_text f.status (codes "added") || same_text f.status (codes "modified"))
      (or_iff (same_text base (codes "package.json") || same_text base (codes "requirements.txt"))
        (same_text base (codes "pyproject.toml"))
        (or_iff (same_text base (codes "package.json")) (same_text base (codes "requirements.txt"))
          (same_text_iff base (codes "package.json"))
          (same_text_iff base (codes "requirements.txt")))
        (same_text_iff base (codes "pyproject.toml")))
      (or_iff (same_text f.status (codes "added")) (same_text f.status (codes "modified"))
        (same_text_iff f.status (codes "added")) (same_text_iff f.status (codes "modified")))

-- A line of a patch that is added, with what follows its sign.
abbrev pub IsAdded : Text → Type 0
IsAdded line = Begins (codes "+") line × (¬ Begins (codes "+++") line)

not_iff : (b : Bool) → (not b ≡ true) ↔ (b ≡ false)
not_iff true = (λ h. absurd (cc), λ h. absurd (cc))
not_iff false = (λ h. refl, λ h. refl)

pub is_added_iff : (line : Text) → (is_added line ≡ true) ↔ IsAdded line
is_added_iff line =
    and_iff (starts_with (codes "+") line) (not (starts_with (codes "+++") line))
      (starts_with_iff (codes "+") line)
      (iff_trans (not_iff (starts_with (codes "+++") line))
        (fails_iff (starts_with (codes "+++") line) (starts_with_iff (codes "+++") line)))

-- A line that is no work to do: not only `pass` or `...`, and with neither TODO nor FIXME.
abbrev pub IsFinished : Text → Type 0
IsFinished s =
    (¬ ((s ≡ codes "pass") ⊎ (s ≡ codes "...")))
    × (¬ (Occurs (codes "TODO") s ⊎ Occurs (codes "FIXME") s))

pub is_placeholder_iff :
    (s : Text) → (is_placeholder s ≡ true) ↔ ((s ≡ codes "pass") ⊎ (s ≡ codes "..."))
is_placeholder_iff s =
    or_iff (same_text s (codes "pass")) (same_text s (codes "...")) (same_text_iff s (codes "pass"))
      (same_text_iff s (codes "..."))

pub has_todo_iff :
    (s : Text) → (has_todo s ≡ true) ↔ (Occurs (codes "TODO") s ⊎ Occurs (codes "FIXME") s)
has_todo_iff s =
    or_iff (occurs_in (codes "TODO") s) (occurs_in (codes "FIXME") s)
      (occurs_in_iff (codes "TODO") s) (occurs_in_iff (codes "FIXME") s)

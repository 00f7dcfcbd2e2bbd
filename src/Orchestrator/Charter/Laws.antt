-- ===== src/Orchestrator/Charter/Laws.antt =====
-- What the two checks of the charter let pass.
use talki_llm_admission_sche.Base.{
  ◌<◌, leb, ◌≡◌, ◌≢◌, refl, ◌↔◌, inl, inr, Bool, true, false, not, Bool-cases, Option, none, some,
  List, [], ◌∷◌, All, arith, map, codes,
}
use talki_llm_admission_sche.Orchestrator.Text.{Text, occurs_in, splitlines, strip}
use talki_llm_admission_sche.Orchestrator.Glob.{glob}
use talki_llm_admission_sche.Orchestrator.Glob.Laws.{Fits, glob_iff}
use talki_llm_admission_sche.Orchestrator.Charter.Reflect.{
  iff_trans, fails_iff, Occurs, occurs_in_iff,
}
use talki_llm_admission_sche.Orchestrator.Charter.Meaning.{
  IsAgent, is_agent_pr_iff, IsPassing, is_passing_iff, ChangesDependency, changes_dependency_iff,
  IsAdded, is_added_iff, IsFinished, is_placeholder_iff, has_todo_iff,
}
use talki_llm_admission_sche.Orchestrator.Charter.{
  PullRequest, ChangedFile, CheckRun, Reason, no_agent, check_failed, diff_too_long, dependency,
  placeholder_in, todo_in, missing_section, ◌or_else◌, first_reason, first_match, unless,
  forbidden_patterns, matches_forbidden, is_agent_pr, is_passing, check_run, check_runs_done,
  check_zone, zone_of, diff_lines, check_diff, changes_dependency, check_dependency, is_added,
  rest_of, is_placeholder, has_todo, check_added, check_line, check_patch, required_sections,
  check_section, check_charter_3,
}

or_else_iff : (a b : Option Reason) → ((a or_else b) ≡ none) ↔ ((a ≡ none) × (b ≡ none))
or_else_iff none b = (λ h. (refl, h), λ h. h.1)
or_else_iff (some e) b = (λ h. absurd (cc), λ h. absurd (cc))

unless_iff : (b : Bool) (e : Reason) → (unless b e ≡ none) ↔ (b ≡ true)
unless_iff true e = (λ h. refl, λ h. refl)
unless_iff false e = (λ h. absurd (cc), λ h. absurd (cc))

pub first_reason_iff {ℓ κ} :
    {A : Type ℓ} (P : A → Type κ) (f : A → Option Reason)
    → ((x : A) → (f x ≡ none) ↔ P x)
    → (l : List A) → (first_reason f l ≡ none) ↔ All P l
unfolding first_reason
first_reason_iff P f each [] = (λ h. tt, λ h. refl)
first_reason_iff P f each (x ∷ l) =
    let rest = first_reason_iff P f each l in
    let both = or_else_iff (f x) (first_reason f l) in
    (λ h. ((each x).0 (both.0 h).0, rest.0 (both.0 h).1), λ h. both.1 ((each x).1 h.0, rest.1 h.1))

-- No pattern of a list fits a path.
abbrev pub IsFree : List Text → Text → Type 0
IsFree pats path = All (λ pat. ¬ Fits pat path) pats

pub first_match_iff :
    (pats : List Text) (path : Text) → (first_match pats path ≡ none) ↔ IsFree pats path
unfolding first_match
first_match_iff [] path = (λ h. tt, λ h. refl)
first_match_iff (pat ∷ pats) path = elim (Bool-cases (glob pat path)) [
  | inl e ↦ rw (e, first_match) (λ h. absurd (cc), λ h. absurd (h.0 ((glob_iff pat path).0 e)))
  | inr e ↦
      let rest = first_match_iff pats path in
      rw (e, first_match)
        (λ h. (λ fits. cc (e, (glob_iff pat path).1 fits), rest.0 h), λ h. rest.1 h.1)
]

zone_of_iff : (f : ChangedFile) (o : Option Text) → (zone_of f o ≡ none) ↔ (o ≡ none)
zone_of_iff f none = (λ h. refl, λ h. refl)
zone_of_iff f (some pat) = (λ h. absurd (cc), λ h. absurd (cc))

pub check_zone_iff :
    (f : ChangedFile) → (check_zone f ≡ none) ↔ IsFree forbidden_patterns f.filename
unfolding matches_forbidden
check_zone_iff f =
    iff_trans (zone_of_iff f (matches_forbidden f.filename))
      (first_match_iff forbidden_patterns f.filename)

not_iff : (b : Bool) → (not b ≡ true) ↔ (b ≡ false)
not_iff true = (λ h. absurd (cc), λ h. absurd (cc))
not_iff false = (λ h. refl, λ h. refl)

pub refused_iff : (b : Bool) (e : Reason) → (unless (not b) e ≡ none) ↔ (b ≡ false)
refused_iff b e = iff_trans (unless_iff (not b) e) (not_iff b)

pub refused_unless {ℓ} :
    {P : Type ℓ} (b : Bool) (e : Reason) → (b ≡ true) ↔ P → (unless (not b) e ≡ none) ↔ (¬ P)
refused_unless b e h = iff_trans (refused_iff b e) (fails_iff b h)

-- An added line, without its sign and the spaces around it, is no work to do.
abbrev pub IsClean : Text → Type 0
IsClean line = IsAdded line → IsFinished (strip (rest_of line))

pub both_iff {ℓ κ} :
    {P : Type ℓ} {Q : Type κ} (a b : Option Reason)
    → (a ≡ none) ↔ P
    → (b ≡ none) ↔ Q
    → ((a or_else b) ≡ none) ↔ (P × Q)
both_iff a b p q = iff_trans (or_else_iff a b) (λ h. (p.0 h.0, q.0 h.1), λ h. (p.1 h.0, q.1 h.1))

check_added_iff : (filename s : Text) → (check_added filename s ≡ none) ↔ IsFinished s
check_added_iff filename s =
    both_iff (unless (not (is_placeholder s)) (placeholder_in s filename))
      (unless (not (has_todo s)) (todo_in filename))
      (refused_unless (is_placeholder s) (placeholder_in s filename) (is_placeholder_iff s))
      (refused_unless (has_todo s) (todo_in filename) (has_todo_iff s))

check_line_iff : (filename line : Text) → (check_line filename line ≡ none) ↔ IsClean line
check_line_iff filename line = elim (Bool-cases (is_added line)) [
  | inl e ↦
      let both = check_added_iff filename (strip (rest_of line)) in
      let added = (is_added_iff line).0 e in
      rw (e, check_line) (λ h a. both.0 h, λ h. both.1 (h added))
  | inr e ↦
      let other = (fails_iff (is_added line) (is_added_iff line)).0 e in
      rw (e, check_line) (λ h a. absurd (other a), λ h. refl)
]

-- What section 3 of the charter asks of a pull request that is merged with no human review.
pub record IsMergeable (pr : PullRequest) (files : List ChangedFile) (runs : List CheckRun)
    : Type 0 where
  pub agent : IsAgent pr.login
  pub checked : runs ≢ []
  pub passing : All (λ r. IsPassing r.conclusion) runs
  pub zones : All (λ f. IsFree forbidden_patterns f.filename) files
  pub short : diff_lines files < 400
  pub dependencies : All (λ f. ¬ ChangesDependency f) files
  pub clean : All (λ f. All IsClean (splitlines f.patch)) files
  pub sections :
      All (λ section. Occurs section pr.body) (map codes ("## What" ∷ "## Why" ∷ "## Test" ∷ []))

runs_iff :
    (runs : List CheckRun)
    → (check_runs_done runs ≡ none) ↔ ((runs ≢ []) × All (λ r. IsPassing r.conclusion) runs)
runs_iff [] = (λ h. absurd (cc), λ h. absurd (h.0 refl))
runs_iff (r ∷ runs) =
    let each =
      first_reason_iff (λ r. IsPassing r.conclusion) check_run
        (λ r.
          iff_trans (unless_iff (is_passing r.conclusion) (check_failed r.name r.conclusion))
            (is_passing_iff r.conclusion))
        (r ∷ runs) in
    (λ h. ((λ e. cc), each.0 h), λ h. each.1 h.1)

diff_iff : (files : List ChangedFile) → (check_diff files ≡ none) ↔ (diff_lines files < 400)
diff_iff files =
    iff_trans (refused_iff (leb 400 (diff_lines files)) (diff_too_long (diff_lines files)))
      (λ h. ground arith, λ h. ground arith)

pub check_charter_3_iff :
    (pr : PullRequest) (files : List ChangedFile) (runs : List CheckRun)
    → (check_charter_3 pr files runs ≡ none) ↔ IsMergeable pr files runs
unfolding check_charter_3
check_charter_3_iff pr files runs =
    let sections =
      first_reason_iff (λ section. Occurs section pr.body) (check_section pr.body)
        (λ section.
          iff_trans (unless_iff (occurs_in section pr.body) (missing_section section))
            (occurs_in_iff section pr.body))
        required_sections in
    let clean =
      first_reason_iff (λ f. All IsClean (splitlines f.patch)) check_patch
        (λ f.
          first_reason_iff IsClean (check_line f.filename) (check_line_iff f.filename)
            (splitlines f.patch))
        files in
    let dependencies =
      first_reason_iff (λ f. ¬ ChangesDependency f) check_dependency
        (λ f.
          refused_unless (changes_dependency f) (dependency f.filename) (changes_dependency_iff f))
        files in
    let zones =
      first_reason_iff (λ f. IsFree forbidden_patterns f.filename) check_zone check_zone_iff
        files in
    let all =
      both_iff _ _
        (iff_trans (unless_iff (is_agent_pr pr.login) no_agent) (is_agent_pr_iff pr.login))
        (both_iff _ _ (runs_iff runs) (
          both_iff _ _ zones (
            both_iff _ _ (diff_iff files)
              (both_iff _ _ dependencies (both_iff _ _ clean sections))))) in
    iff_trans all (
      λ h. record {
        agent = h.0;
        checked = h.1.0.0;
        passing = h.1.0.1;
        zones = h.1.1.0;
        short = h.1.1.1.0;
        dependencies = h.1.1.1.1.0;
        clean = h.1.1.1.1.1.0;
        sections = h.1.1.1.1.1.1;
      },
      λ m. (
        m.agent,
        ((m.checked, m.passing), (m.zones, (m.short, (m.dependencies, (m.clean, m.sections))))),
      ),
    )

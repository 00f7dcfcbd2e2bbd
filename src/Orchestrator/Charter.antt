-- ===== src/Orchestrator/Charter.antt =====
-- orchestrator/charter_rules.py: the rules of the charter for pull requests. A check that passes is
-- `none`, and one that fails is the reason. Texts are lists of code points. Of a pull request, its files
-- and its check runs the model has what the rules read, with the defaults of `get` filled in.
pub mod Rejection
pub mod Reflect
pub mod Meaning
pub mod Traces
pub mod Keywords
pub mod Laws
pub mod Rejected
use talki_llm_admission_sche.Base.{
  ℕ, zero, suc, ◌+◌, ◌==◌, leb, ◌&&◌, ◌||◌, Bool, true, false, not, Option, none, some, List, [],
  ◌∷◌, ◌++◌, map, String, codes, if◌then◌else◌,
}
use talki_llm_admission_sche.Orchestrator.Text.{
  Text, is_empty, same_text, starts_with, any_suffix, occurs_in, ends_with, strip, splitlines,
  base_name,
}
use talki_llm_admission_sche.Orchestrator.Glob.{glob}

-- FORBIDDEN_PATTERNS
abbrev pub forbidden_patterns : List Text
forbidden_patterns = map codes (
    ".env" ∷ ".env.*" ∷ "*.env" ∷ "docker-compose*.yml" ∷ "Dockerfile*" ∷ ".dockerignore"
    ∷ "infra/docker/*" ∷ ".github/*" ∷ "apps/api/alembic.ini" ∷ "apps/api/alembic/versions/*"
    ∷ "alembic.ini" ∷ "alembic/versions/*" ∷ "apps/api/routers/auth*.py" ∷ "apps/api/routers/auth/*"
    ∷ "apps/api/services/aml_service*.py" ∷ "apps/api/services/kyc_service*.py"
    ∷ "apps/api/models.py" ∷ "apps/api/models/*" ∷ "apps/api/db.py" ∷ "apps/api/main.py"
    ∷ "apps/api/config*.py" ∷ "apps/web/next.config.*" ∷ "apps/web/tsconfig.json"
    ∷ "apps/web/package.json" ∷ "apps/web/middleware.ts" ∷ "apps/web/app/layout.tsx" ∷ "CODEOWNERS"
    ∷ [])

unfoldable pub first_match : List Text → Text → Option Text
first_match [] path = none
first_match (pat ∷ pats) path = elim (glob pat path) [
  | true ↦ some pat
  | false ↦ first_match pats path
]

unfoldable pub matches_forbidden : Text → Option Text
unfolding first_match
matches_forbidden path = first_match forbidden_patterns path

abbrev pub agent_names : List Text
agent_names = map codes (
    "kola-ceo-agent" ∷ "kola-backend-agent" ∷ "kola-frontend-agent" ∷ "kola-qa-agent"
    ∷ "kola-doc-agent" ∷ "kola-triage-agent" ∷ [])

-- `$` also stands before a line feed that ends the text.
unfoldable pub is_one_of : List Text → Text → Bool
unfolding same_text
is_one_of [] s = false
is_one_of (n ∷ names) s = same_text s n || same_text s (n ++ (10 ∷ [])) || is_one_of names s

-- `is_agent_pr` on the login of the author, by AGENT_USER_PATTERNS.
unfoldable pub is_agent_pr : Text → Bool
unfolding is_one_of starts_with
is_agent_pr login = is_one_of agent_names login || starts_with (codes "kola-team-bot") login

pub record PullRequest : Type 0 where
  pub login : Text
  pub body : Text

pub record ChangedFile : Type 0 where
  pub filename : Text
  pub additions : ℕ
  pub deletions : ℕ
  pub status : Text
  pub patch : Text

pub record CheckRun : Type 0 where
  pub name : Text
  pub conclusion : Option Text

-- The reasons of `CheckResult`, each with the values that its text shows.
pub data Reason : Type 0 where
  no_agent no_checks : Reason
  check_failed : Text → Option Text → Reason
  forbidden_zone : Text → Text → Reason
  diff_too_long : ℕ → Reason
  dependency todo_in : Text → Reason
  placeholder_in : Text → Text → Reason
  missing_section : Text → Reason
  secret_in prod_like_in : Text → Reason

infixr 30 ◌or_else◌
abbrev pub ◌or_else◌ : Option Reason → Option Reason → Option Reason
none or_else r = r
some e or_else r = some e

-- The first reason in a list.
unfoldable pub first_reason {ℓ} : {A : Type ℓ} → (A → Option Reason) → List A → Option Reason
first_reason f [] = none
first_reason f (x ∷ l) = f x or_else first_reason f l

abbrev pub unless : Bool → Reason → Option Reason
unless true e = none
unless false e = some e

abbrev pub is_passing : Option Text → Bool
is_passing none = false
is_passing (some c) =
    same_text c (codes "success") || same_text c (codes "skipped") || same_text c (codes "neutral")

abbrev pub check_run : CheckRun → Option Reason
check_run r = unless (is_passing r.conclusion) (check_failed r.name r.conclusion)

abbrev pub check_runs_done : List CheckRun → Option Reason
check_runs_done [] = some no_checks
check_runs_done (r ∷ runs) = first_reason check_run (r ∷ runs)

abbrev pub zone_of : ChangedFile → Option Text → Option Reason
zone_of f none = none
zone_of f (some pat) = some (forbidden_zone f.filename pat)

abbrev pub check_zone : ChangedFile → Option Reason
check_zone f = zone_of f (matches_forbidden f.filename)

unfoldable pub diff_lines : List ChangedFile → ℕ
diff_lines [] = 0
diff_lines (f ∷ files) = (f.additions + f.deletions) + diff_lines files

-- `total >= MAX_PR_DIFF_LINES`
abbrev pub check_diff : List ChangedFile → Option Reason
check_diff files = unless (not (leb 400 (diff_lines files))) (diff_too_long (diff_lines files))

abbrev pub is_dependency_file : Text → Bool
is_dependency_file base =
    same_text base (codes "package.json")
    || same_text base (codes "requirements.txt")
    || same_text base (codes "pyproject.toml")

abbrev pub changes_dependency : ChangedFile → Bool
changes_dependency f =
    is_dependency_file (base_name f.filename)
    && (same_text f.status (codes "added") || same_text f.status (codes "modified"))

abbrev pub check_dependency : ChangedFile → Option Reason
check_dependency f = unless (not (changes_dependency f)) (dependency f.filename)

-- `line.startswith("+") and not line.startswith("+++")`
abbrev pub is_added : Text → Bool
is_added line = starts_with (codes "+") line && not (starts_with (codes "+++") line)

-- `line[1:]`
abbrev pub rest_of : Text → Text
rest_of [] = []
rest_of (c ∷ s) = s

abbrev pub is_placeholder : Text → Bool
is_placeholder s = same_text s (codes "pass") || same_text s (codes "...")

abbrev pub has_todo : Text → Bool
has_todo s = occurs_in (codes "TODO") s || occurs_in (codes "FIXME") s

abbrev pub check_added : Text → Text → Option Reason
check_added filename stripped =
    unless (not (is_placeholder stripped)) (placeholder_in stripped filename)
    or_else unless (not (has_todo stripped)) (todo_in filename)

abbrev pub check_line : Text → Text → Option Reason
check_line filename line = elim (is_added line) [
  | true ↦ check_added filename (strip (rest_of line))
  | false ↦ none
]

abbrev pub check_patch : ChangedFile → Option Reason
check_patch f = first_reason (check_line f.filename) (splitlines f.patch)

-- REQUIRED_PR_SECTIONS
abbrev pub required_sections : List Text
required_sections = map codes ("## What" ∷ "## Why" ∷ "## Test" ∷ [])

abbrev pub check_section : Text → Text → Option Reason
check_section body section = unless (occurs_in section body) (missing_section section)

unfoldable pub check_charter_3 : PullRequest → List ChangedFile → List CheckRun → Option Reason
unfolding is_agent_pr matches_forbidden first_reason diff_lines
check_charter_3 pr files check_runs =
    unless (is_agent_pr pr.login) no_agent
    or_else check_runs_done check_runs
    or_else first_reason check_zone files
    or_else check_diff files
    or_else first_reason check_dependency files
    or_else first_reason check_patch files
    or_else first_reason (check_section pr.body) required_sections

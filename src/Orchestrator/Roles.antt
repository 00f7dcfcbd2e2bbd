-- ===== src/Orchestrator/Roles.antt =====
-- orchestrator/config.py: the profiles of the agents, and the variables that a `.env` file sets. Timeouts
-- are in seconds.
pub mod Laws
use talki_llm_admission_sche.Base.{
  ℕ, ◌==◌, ◌&&◌, ◌||◌, Bool, true, false, not, Option, none, some, List, [], ◌∷◌, codes,
  if◌then◌else◌,
}
use talki_llm_admission_sche.Orchestrator.Text.{
  Text, is_empty, same_text, starts_with, occurs_in, any_suffix, strip, lstrip_by, rstrip_by,
  splitlines,
}

pub record Role : Type 0 where
  pub name : Text
  pub git_name : Text
  pub git_email : Text
  pub primary_alias : Text
  pub fallback_alias : Option Text
  pub daily_token_cap : ℕ
  pub llm_timeout_s : ℕ
  pub fallback_timeout_s : ℕ

-- ROLES
abbrev pub roles : List Role
roles =
    record {
      name = codes "ceo";
      git_name = codes "kola-ceo-agent";
      git_email = codes "ceo@kola-money.local";
      primary_alias = codes "code";
      fallback_alias = some (codes "brain-exec");
      daily_token_cap = 300000;
      llm_timeout_s = 600;
      fallback_timeout_s = 300;
    }
    ∷ record {
      name = codes "backend";
      git_name = codes "kola-backend-agent";
      git_email = codes "backend@kola-money.local";
      primary_alias = codes "code";
      fallback_alias = some (codes "brain-exec");
      daily_token_cap = 500000;
      llm_timeout_s = 600;
      fallback_timeout_s = 300;
    }
    ∷ record {
      name = codes "frontend";
      git_name = codes "kola-frontend-agent";
      git_email = codes "frontend@kola-money.local";
      primary_alias = codes "code";
      fallback_alias = some (codes "brain-exec");
      daily_token_cap = 400000;
      llm_timeout_s = 600;
      fallback_timeout_s = 300;
    }
    ∷ record {
      name = codes "qa";
      git_name = codes "kola-qa-agent";
      git_email = codes "qa@kola-money.local";
      primary_alias = codes "brain-exec";
      fallback_alias = none;
      daily_token_cap = 300000;
      llm_timeout_s = 300;
      fallback_timeout_s = 0;
    }
    ∷ record {
      name = codes "doc";
      git_name = codes "kola-doc-agent";
      git_email = codes "doc@kola-money.local";
      primary_alias = codes "reasoning-model";
      fallback_alias = none;
      daily_token_cap = 150000;
      llm_timeout_s = 300;
      fallback_timeout_s = 0;
    }
    ∷ record {
      name = codes "triage";
      git_name = codes "kola-triage-agent";
      git_email = codes "triage@kola-money.local";
      primary_alias = codes "tool-worker";
      fallback_alias = none;
      daily_token_cap = 100000;
      llm_timeout_s = 120;
      fallback_timeout_s = 0;
    }
    ∷ []

-- `ROLES[name]`, or nothing for KeyError
unfoldable pub find_role : List Role → Text → Option Role
find_role [] name = none
find_role (r ∷ rs) name = elim (same_text r.name name) [ true ↦ some r | false ↦ find_role rs name ]

-- `role`
unfoldable pub role : Text → Option Role
unfolding find_role same_text
role name = find_role roles name

-- The environment of the process.
abbrev pub Variables : Type 0
Variables = List (Text × Text)

unfoldable pub variable : Text → Variables → Option Text
unfolding same_text
variable k [] = none
variable k ((j, v) ∷ env) = elim (same_text j k) [ true ↦ some v | false ↦ variable k env ]

abbrev pub or_set : Text → Text → Variables → Option Text → Variables
or_set k v env none = (k, v) ∷ env
or_set k v env (some old) = env

-- `os.environ.setdefault(k, v)`
unfoldable pub set_default : Text → Text → Variables → Variables
unfolding variable
set_default k v env = or_set k v env (variable k env)

-- `line.split("=", 1)`, where there is an equals sign
unfoldable pub split_equals : Text → Text → Text × Text
split_equals before [] = (before, [])
split_equals before (c ∷ s) = elim (c == b'=') [
  | true ↦ (before, s)
  | false ↦ split_equals (append_code before c) s
]
  where
    append_code : Text → ℕ → Text
    append_code [] c = c ∷ []
    append_code (d ∷ t) c = d ∷ append_code t c

-- `s.strip("'\"")`
abbrev pub strip_quotes : Text → Text
strip_quotes s =
    rstrip_by (λ c. (c == b'\'') || (c == b'"')) (lstrip_by (λ c. (c == b'\'') || (c == b'"')) s)

abbrev pub is_assignment : Text → Bool
is_assignment line =
    not (is_empty line) && not (starts_with (codes "#") line) && occurs_in (codes "=") line

abbrev pub assign : Text × Text → Variables → Variables
assign (k, v) env = set_default (strip k) (strip_quotes (strip v)) env

abbrev pub load_line : Text → Variables → Variables
load_line line env = elim (is_assignment line) [
  | true ↦ assign (split_equals [] line) env
  | false ↦ env
]

unfoldable pub load_lines : List Text → Variables → Variables
unfolding set_default split_equals starts_with any_suffix strip lstrip_by rstrip_by
load_lines [] env = env
load_lines (line ∷ lines) env = load_lines lines (load_line (strip line) env)

-- `_load_dotenv`, with the text of the file, if there is one
unfoldable pub load_dotenv : Option Text → Variables → Variables
unfolding load_lines splitlines
load_dotenv none env = env
load_dotenv (some content) env = load_lines (splitlines content) env

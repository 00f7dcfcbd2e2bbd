-- ===== src/Orchestrator/Worktree.antt =====
-- orchestrator/worktree.py: the git worktree of an agent for an issue. The commands that are run and the file
-- system are arguments; a path is its text.
pub mod Rules
pub mod Made
pub mod Slugs
use talki_llm_admission_sche.Base.{
  ℕ, zero, suc, ◌==◌, leb, ◌&&◌, ◌||◌, Bool, true, false, Option, none, some, List, [], ◌∷◌, ◌++◌,
  codes, String, length, if◌then◌else◌,
}
use talki_llm_admission_sche.Base.Int.{ℤ, pos, negsuc}
use talki_llm_admission_sche.Base.Decimal
use talki_llm_admission_sche.Orchestrator.Text.{
  Text, is_empty, same_text, strip, lstrip_by, rstrip_by,
}
use talki_llm_admission_sche.Orchestrator.Roles.{Role}

-- The characters that `[^a-zA-Z0-9]` leaves.
abbrev pub is_alphanumeric : ℕ → Bool
is_alphanumeric c =
    (leb b'a' c && leb c b'z') || (leb b'A' c && leb c b'Z') || (leb b'0' c && leb c b'9')

-- `re.sub(r"[^a-zA-Z0-9]+", "-", s)`, after a character that was replaced or not
unfoldable pub dashes : Bool → Text → Text
dashes in_run [] = []
dashes in_run (c ∷ s) = elim (is_alphanumeric c) [
  | true ↦ c ∷ dashes false s
  | false ↦ elim in_run [ true ↦ dashes true s | false ↦ b'-' ∷ dashes true s ]
]

abbrev pub is_dash : ℕ → Bool
is_dash c = c == b'-'

unfoldable pub first_chars : ℕ → Text → Text
first_chars zero s = []
first_chars (suc n) [] = []
first_chars (suc n) (c ∷ s) = c ∷ first_chars n s

abbrev pub or_task : Text → Text
or_task s = if is_empty s then codes "task" else s

-- `_slug` of a text, where `lower` is `str.lower`
unfoldable pub slug : (Text → Text) → Text → Text
unfolding dashes first_chars
slug lower t =
    or_task (first_chars 40 (rstrip_by is_dash (lstrip_by is_dash (dashes false (lower t)))))

-- What is done outside: git in a folder, the script that installs the hook, and what is done to folders.
pub data Command : Type 0 where
  git : List Text → Text → Command
  bash : Text → Text → Command
  make_folder remove_tree : Text → Command

-- How a command ends: its exit code, negative where a signal ended it, and what it wrote.
pub record Ran : Type 0 where
  pub code : ℤ
  pub out : Text
  pub err : Text

-- The arguments that may change are given the number of the commands before. A command that cannot be run, or a
-- folder that cannot be made, is `none`, an OSError. Folders are joined to their roots by a slash.
pub record Env : Type 0 where
  pub lower : Text → Text
  pub poc_root : Text
  pub team_root : Text
  pub worktrees_root : Text
  pub exists : ℕ → Text → Bool
  pub run : ℕ → Command → Option Ran

-- WorktreeError with its text, or another exception.
pub data Failure : Type 0 where
  worktree_error : Text → Failure
  other_error : Failure

pub data Outcome (A : Type 0) : Type 0 where
  ok : A → Outcome A
  failed : Failure → Outcome A

-- The commands so far, the latest first, before and after.
abbrev pub M : Type 0 → Type 0
M A = List Command → Outcome A × List Command

abbrev pub pure : {A : Type 0} → A → M A
pure a l = (ok a, l)

abbrev pub raise : {A : Type 0} → Failure → M A
raise e l = (failed e, l)

abbrev pub continue : {A B : Type 0} → (A → M B) → Outcome A → M B
continue f (ok a) l = f a l
continue f (failed e) l = (failed e, l)

infixl 5 ◌>>=◌ ◌>>◌
abbrev pub ◌>>=◌ : {A B : Type 0} → M A → (A → M B) → M B
(m >>= f) l = let (r, k) = m l in continue f r k

abbrev pub ◌>>◌ : {A B : Type 0} → M A → M B → M B
m >> k = m >>= λ _. k

abbrev pub or_raise : Option Ran → Outcome Ran
or_raise none = failed other_error
or_raise (some r) = ok r

-- `_run`
abbrev pub run_command : Env → Command → M Ran
run_command env k l = (or_raise (env.run (length l) k), k ∷ l)

abbrev pub is_there : Env → Text → M Bool
is_there env path l = (ok (env.exists (length l) path), l)

abbrev pub is_zero : ℤ → Bool
is_zero (pos zero) = true
is_zero (pos (suc n)) = false
is_zero (negsuc n) = false

abbrev pub or_fail : Text → Ran → M (Unit {0})
or_fail text r = if is_zero r.code then pure tt else raise (worktree_error (text ++ strip r.err))

-- A command whose failure is a WorktreeError.
abbrev pub checked : Env → Text → Command → M (Unit {0})
checked env text k = run_command env k >>= or_fail text

abbrev pub below : Text → Text → Text
below root rest = root ++ codes "/" ++ rest

pub record Worktree : Type 0 where
  pub path : Text
  pub branch : Text
  pub role : Role

-- `{issue_id}-{slug}`
abbrev pub task_name : Env → ℕ → Text → Text
task_name env issue_id title =
    codes (Decimal.str (pos issue_id)) ++ codes "-" ++ slug env.lower title

abbrev pub branch_of : Env → Role → ℕ → Text → Text
branch_of env role issue_id title =
    codes "agents/" ++ role.name ++ codes "/" ++ task_name env issue_id title

abbrev pub folder_of : Env → Role → ℕ → Text → Text
folder_of env role issue_id title =
    below (below env.worktrees_root role.name) (task_name env issue_id title)

abbrev pub config_command : Text → Text → Text → Command
config_command folder key value = git (codes "config" ∷ codes "--local" ∷ key ∷ value ∷ []) folder

abbrev pub name_command : Text → Role → Command
name_command folder role = config_command folder (codes "user.name") role.git_name

abbrev pub email_command : Text → Role → Command
email_command folder role = config_command folder (codes "user.email") role.git_email

abbrev pub config_failed : String → Text
config_failed key = codes "git config " ++ codes key ++ codes " a échoué : "

-- `_configure_identity`
unfoldable pub configure_identity : Env → Text → Role → M (Unit {0})
configure_identity env folder role =
    checked env (config_failed "user.name") (name_command folder role)
    >> checked env (config_failed "user.email") (email_command folder role)

abbrev pub hook_failed : Text
hook_failed = codes "install-precommit-hook a échoué : "

abbrev pub hook_script : Env → Text
hook_script env = below env.team_root (codes "scripts/install-precommit-hook.sh")

-- `_install_hook`
unfoldable pub install_hook : Env → Text → M (Unit {0})
install_hook env folder = is_there env (hook_script env) >>= λ there. elim there [
  | true ↦ checked env hook_failed (bash (hook_script env) folder)
  | false ↦ raise (worktree_error (codes "hook installer introuvable : " ++ hook_script env))
]

-- `ensure_base_uptodate`
unfoldable pub ensure_base_uptodate : Env → M (Unit {0})
ensure_base_uptodate env = is_there env env.poc_root >>= λ there. elim there [
  | true ↦
      checked env (codes "git fetch origin main a échoué : ")
        (git (codes "fetch" ∷ codes "origin" ∷ codes "main" ∷ codes "--quiet" ∷ []) env.poc_root)
  | false ↦ raise (worktree_error (codes "POC repo introuvable : " ++ env.poc_root))
]

abbrev pub head_command : Text → Command
head_command folder = git (codes "rev-parse" ∷ codes "--abbrev-ref" ∷ codes "HEAD" ∷ []) folder

abbrev pub add_command : Env → Text → Text → Command
add_command env branch folder =
    git (codes "worktree" ∷ codes "add" ∷ codes "-b" ∷ branch ∷ folder ∷ codes "origin/main" ∷ [])
      env.poc_root

-- The identity and the hook, in a worktree that is there.
abbrev pub set_up : Env → Worktree → M Worktree
set_up env wt = configure_identity env wt.path wt.role >> install_hook env wt.path >> pure wt

-- A folder that is there is taken if its branch is the one that is wanted.
abbrev pub reuse : Env → Worktree → M Worktree
reuse env wt = run_command env (head_command wt.path) >>= λ r.
    elim (is_zero r.code && same_text (strip r.out) wt.branch) [
      | true ↦ set_up env wt
      | false ↦
          raise (worktree_error (codes "worktree path existe avec mauvaise branche : " ++ wt.path))
    ]

abbrev pub add_failed : Text
add_failed = codes "git worktree add a échoué : "

abbrev pub add : Env → Worktree → M Worktree
add env wt = checked env add_failed (add_command env wt.branch wt.path) >> set_up env wt

abbrev pub new_worktree : Env → Role → ℕ → Text → Worktree
new_worktree env role issue_id title = record {
  path = folder_of env role issue_id title;
  branch = branch_of env role issue_id title;
  role = role;
}

-- `create_worktree`
unfoldable pub create_worktree : Env → Role → ℕ → Text → M Worktree
unfolding slug configure_identity install_hook
create_worktree env role issue_id title =
    let wt = new_worktree env role issue_id title in
    run_command env (make_folder env.worktrees_root) >> is_there env wt.path >>= λ there.
    elim there [ true ↦ reuse env wt | false ↦ add env wt ]

abbrev pub remove_command : Env → Worktree → Bool → Command
remove_command env wt force =
    git
      (codes "worktree"
        ∷ codes "remove"
        ∷ wt.path
        ∷ (elim force [ true ↦ codes "--force" ∷ [] | false ↦ [] ]))
      env.poc_root

abbrev pub prune_command : Env → Command
prune_command env = git (codes "worktree" ∷ codes "prune" ∷ []) env.poc_root

-- `shutil.rmtree` ignores its errors.
abbrev pub remove_folder : Text → M (Unit {0})
remove_folder path l = (ok tt, remove_tree path ∷ l)

abbrev pub clean_up : Env → Worktree → M (Unit {0})
clean_up env wt =
    is_there env wt.path
    >>= (λ there. elim there [ true ↦ remove_folder wt.path | false ↦ pure tt ])
    >> run_command env (prune_command env)
    >> pure tt

-- `remove_worktree`
unfoldable pub remove_worktree : Env → Worktree → Bool → M (Unit {0})
remove_worktree env wt force = run_command env (remove_command env wt force) >>= λ r.
    elim (is_zero r.code) [ true ↦ pure tt | false ↦ clean_up env wt ]

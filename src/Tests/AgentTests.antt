-- ===== src/Tests/AgentTests.antt =====
-- The agents at concrete inputs.
use talki_llm_admission_sche.Base.{
  ◌≤◌, ◌≡◌, refl, true, false, none, some, List, [], ◌∷◌, All, Among, codes,
}
use talki_llm_admission_sche.Orchestrator.Text.{lstrip_by, strip, splitlines, base_name}
use talki_llm_admission_sche.Orchestrator.Glob.{glob}
use talki_llm_admission_sche.Orchestrator.Charter.{matches_forbidden}
use talki_llm_admission_sche.Orchestrator.Actions.{
  Action, remove_worktree, log_event, add_labels, merge_pr, approve_pr, get_status, get_files,
  list_open, set_labels, commit_tokens, ask_llm, reserve_tokens,
}
use talki_llm_admission_sche.Orchestrator.Ceo.{OpenPr, GitHub}
use talki_llm_admission_sche.Orchestrator.Ceo
use talki_llm_admission_sche.Orchestrator.Ceo.Safety.{
  Allowed, MayMerge, MayClose, ceo_heartbeat_safe,
}
use talki_llm_admission_sche.Orchestrator.Backend.{
  FileChange, GeneratedChanges, Env, replied, granted,
}
use talki_llm_admission_sche.Orchestrator.Backend.Choice.{IsPicked}
use talki_llm_admission_sche.Orchestrator.Backend.Paths.{validate_paths, joined}
use talki_llm_admission_sche.Orchestrator.Backend.Paths.Laws.{
  IsAccepted, validate_paths_iff, absolute_path_accepted,
}
use talki_llm_admission_sche.Orchestrator.Backend.Permitted.{Permitted}
use talki_llm_admission_sche.Orchestrator.Backend.Work
use talki_llm_admission_sche.Orchestrator.Backend.Work.Safety.{backend_heartbeat_safe}
use talki_llm_admission_sche.Orchestrator.Actions.Costs.{total}
use talki_llm_admission_sche.Orchestrator.Backend.Work.Spending.{heartbeat_spends}
use talki_llm_admission_sche.Orchestrator.Backend.Work.Cleanup.{in_worktree_removes}
use talki_llm_admission_sche.Orchestrator.Triage

abbrev github : GitHub
github = record {
  failure = λ n. none;
  files = λ n.
      record {
        filename = codes "apps/api/utils/a.py";
        additions = 1;
        deletions = 0;
        status = codes "modified";
        patch = codes "+x = 1";
      }
      ∷ [];
  runs = λ n. record { name = codes "ci"; conclusion = some (codes "success") } ∷ [];
  open_prs =
      record {
        number = 7;
        draft = false;
        pull = record {
          login = codes "kola-backend-agent";
          body = codes "## What a ## Why b ## Test c";
        };
        labels = [];
      }
      ∷ [];
  alphabet = record { is_word = λ c. false; fold = λ c. c };
  lower = λ t. t;
}

ceo_heartbeat_safe_example :
    All
      (Allowed
        (λ n. Among (MayMerge github n) github.open_prs)
        (λ n. Among (MayClose github n) github.open_prs))
      (Ceo.heartbeat github false []).1
ceo_heartbeat_safe_example = ceo_heartbeat_safe github false

-- It is merged.
merged :
    (Ceo.heartbeat github false []).1
    ≡ log_event "auto-merge"
      ∷ add_labels 7 (codes "auto-merged-by-ceo-agent" ∷ [])
      ∷ merge_pr 7
      ∷ approve_pr 7
      ∷ get_status 7
      ∷ get_files 7
      ∷ list_open 0
      ∷ []
unfolding Ceo.heartbeat glob splitlines base_name strip
merged = refl

abbrev change : GeneratedChanges
change = record {
  files = record { path = some (codes "apps/api/utils/a.py"); content = some (codes "x = 1") } ∷ [];
  tests = [];
}

abbrev env : Env
env = record {
  failure = λ n. none;
  open_issues = record { number = 4; labels = codes "area/api" ∷ [] } ∷ [];
  worktree = λ n. codes "/w/4";
  reserved = λ n. granted;
  reply = λ n. replied (some (record { is_blocked = false; proposed = change })) 100;
  succeeds = λ n. true;
  staged = λ n. true;
  listing = λ n. record { both_there = false; modules = []; has_test = λ t. false };
  new_pr = λ n. 8;
}

backend_heartbeat_safe_example :
    All (Permitted env (IsPicked env.open_issues)) (Work.heartbeat env false []).1
backend_heartbeat_safe_example = backend_heartbeat_safe env false

heartbeat_spends_example :
    let actions = (Work.heartbeat env false []).1 in
    (total 1 0 actions ≤ 3) × (total 0 1 actions ≤ 24000)
heartbeat_spends_example = heartbeat_spends env false

worktree_removed :
    (before : List Action) × ((Work.in_worktree env 4 []).1 ≡ remove_worktree 4 ∷ before)
worktree_removed = in_worktree_removes env 4 []

accepted : validate_paths change ≡ []
unfolding validate_paths lstrip_by strip matches_forbidden glob
accepted = refl

abbrev first_file : FileChange
first_file = record { path = some (codes "apps/api/utils/a.py"); content = none }

abbrev only_file : GeneratedChanges
only_file = record { files = first_file ∷ []; tests = [] }

first_accepted : validate_paths only_file ≡ []
unfolding validate_paths lstrip_by strip matches_forbidden glob
first_accepted = refl

absolute_path_accepted_example :
    IsAccepted (record { path = some (codes "/apps/api/utils/a.py"); content = none })
    × (joined (codes "/w/4") (codes "/apps/api/utils/a.py") ≡ codes "/apps/api/utils/a.py")
unfolding lstrip_by
absolute_path_accepted_example =
    absolute_path_accepted (codes "/w/4") (codes "apps/api/utils/a.py") none refl
      ((validate_paths_iff only_file).0 first_accepted).0

abbrev triage_env : Triage.Env
triage_env = record {
  failure = λ n. none;
  open_issues = record { number = 4; labels = [] } ∷ [];
  reserved = λ n. granted;
  reply = λ n.
      Triage.replied
        (some (record {
          area = codes "area/api";
          kind = codes "kind/bug";
          ready = true;
          missing_info = [];
        }))
        100;
}

labelled :
    (Triage.heartbeat triage_env []).1
    ≡ log_event "labeled"
      ∷ set_labels 4 (codes "area/api" ∷ codes "kind/bug" ∷ codes "ready-for-dev" ∷ [])
      ∷ commit_tokens 100
      ∷ ask_llm
      ∷ reserve_tokens 600
      ∷ list_open 0
      ∷ []
unfolding Triage.heartbeat
labelled = refl

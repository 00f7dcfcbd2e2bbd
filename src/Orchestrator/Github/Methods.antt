-- ===== src/Orchestrator/Github/Methods.antt =====
-- The methods of orchestrator/github_app.py.
use talki_llm_admission_sche.Base.{
  ℕ, ◌==◌, leb, Bool, true, false, Option, none, some, List, [], ◌∷◌, ◌++◌, codes, if◌then◌else◌,
}
use talki_llm_admission_sche.Base.Int.{pos}
use talki_llm_admission_sche.Base.Decimal
use talki_llm_admission_sche.Orchestrator.Text.{Text, is_empty, occurs_in}
use talki_llm_admission_sche.Orchestrator.Json.{
  Json, null, bool, num, str, arr, obj, Items, nil, cons, Fields, field, end, get, has_key, texts,
}
use talki_llm_admission_sche.Orchestrator.Github.{
  Env, Method, get_method, post, put, patch, delete, Request, HttpAnswer, Failure, github_error,
  other_error, M, pure, raise, or_raise, ask, req, item, first, attempt, ◌>>=◌,
}

abbrev number : ℕ → Text
number n = codes (Decimal.str (pos n))

-- A path below `/repos/{GH_REPO}`.
abbrev pub repo_path : Env → Text → Text
repo_path env rest = codes "/repos/" ++ env.repo ++ rest

abbrev pub get_path : Env → Text → List (Text × Text) → M Json
get_path env rest params =
    req env
      (record { method = get_method; path = repo_path env rest; json = null; params = params })

abbrev pub send_json : Env → Method → Text → Fields → M Json
send_json env how rest body =
    req env (record { method = how; path = repo_path env rest; json = obj body; params = [] })

abbrev pub issue : ℕ → Text → Text
issue n rest = codes "/issues/" ++ number n ++ rest

abbrev pub pull : ℕ → Text → Text
pull n rest = codes "/pulls/" ++ number n ++ rest

abbrev pub state_open : List (Text × Text)
state_open = (codes "state", codes "open") ∷ (codes "per_page", codes "50") ∷ []

unfoldable pub list_open_prs : Env → M Json
list_open_prs env = get_path env (codes "/pulls") state_open

unfoldable pub get_pr : Env → ℕ → M Json
get_pr env n = get_path env (pull n []) []

unfoldable pub get_pr_files : Env → ℕ → M Json
get_pr_files env n = get_path env (pull n (codes "/files")) ((codes "per_page", codes "100") ∷ [])

unfoldable pub comment_pr : Env → ℕ → Text → M Json
comment_pr env n body =
    send_json env post (issue n (codes "/comments")) (field "body" (str body) end)

unfoldable pub add_labels : Env → ℕ → List Text → M Json
add_labels env n labels =
    send_json env post (issue n (codes "/labels")) (field "labels" (arr (texts labels)) end)

unfoldable pub approve_pr : Env → ℕ → Text → M Json
approve_pr env n body =
    send_json env post (pull n (codes "/reviews"))
      (field "event" (str (codes "APPROVE")) (field "body" (str body) end))

unfoldable pub merge_pr : Env → ℕ → Text → Text → M Json
merge_pr env n title message = send_json env put (pull n (codes "/merge")) (
    field "commit_title" (str title)
      (field "commit_message" (str message) (field "merge_method" (str (codes "squash")) end)))

unfoldable pub close_pr : Env → ℕ → M Json
close_pr env n = send_json env patch (pull n []) (field "state" (str (codes "closed")) end)

unfoldable pub comment_issue : Env → ℕ → Text → M Json
comment_issue env n body =
    send_json env post (issue n (codes "/comments")) (field "body" (str body) end)

unfoldable pub list_issue_comments : Env → ℕ → M Json
list_issue_comments env n =
    get_path env (issue n (codes "/comments")) ((codes "per_page", codes "100") ∷ [])

unfoldable pub set_issue_labels : Env → ℕ → List Text → M Json
set_issue_labels env n labels =
    send_json env put (issue n (codes "/labels")) (field "labels" (arr (texts labels)) end)

unfoldable pub get_repo : Env → M Json
get_repo env = get_path env [] []

unfoldable pub create_pull_request : Env → Text → Text → Text → Text → Bool → M Json
create_pull_request env title body head base draft = send_json env post (codes "/pulls") (
    field "title" (str title) (
      field "body" (str body)
        (field "head" (str head) (field "base" (str base) (field "draft" (bool draft) end)))))

-- `",".join(labels)`
unfoldable pub join_comma : List Text → Text
join_comma [] = []
join_comma (t ∷ []) = t
join_comma (t ∷ u ∷ ts) = t ++ codes "," ++ join_comma (u ∷ ts)

abbrev pub with_labels : List Text → List (Text × Text)
with_labels [] = state_open
with_labels (l ∷ ls) = state_open ++ ((codes "labels", join_comma (l ∷ ls)) ∷ [])

-- The issues that are not pull requests. GitHub lists objects; anything else is an error here.
unfoldable pub drop_prs : Items → Option Items
drop_prs nil = some nil
drop_prs (cons (obj fs) vs) = elim (drop_prs vs) [
  | none ↦ none
  | some rest ↦ some (if has_key "pull_request" fs then rest else cons (obj fs) rest)
]
drop_prs (cons v vs) = none

abbrev pub issues_of : Json → Option Items
issues_of (arr vs) = drop_prs vs
issues_of v = none

unfoldable pub list_open_issues : Env → List Text → M Items
unfolding join_comma drop_prs
list_open_issues env labels =
    get_path env (codes "/issues") (with_labels labels) >>= λ all. or_raise (issues_of all)

-- A workflow run as a check run, of an object with a name and a status.
abbrev pub check_run_of : Fields → Option Json → Option Json → Option Json
check_run_of fs (some name) (some status) = some (
    obj (
      field "name" name (
        field "status" status
          (field "conclusion" (elim (get "conclusion" fs) [ none ↦ null | some v ↦ v ]) end))))
check_run_of fs name status = none

abbrev pub check_run : Json → Option Json
check_run (obj fs) = check_run_of fs (get "name" fs) (get "status" fs)
check_run v = none

unfoldable pub check_runs : Items → Option Items
check_runs nil = some nil
check_runs (cons v vs) = elim (check_run v) [
  | none ↦ none
  | some r ↦ elim (check_runs vs) [ none ↦ none | some rest ↦ some (cons r rest) ]
]

-- `runs.get("workflow_runs", [])`, of which GitHub sends a list
abbrev pub workflow_runs : Option Json → Option Items
workflow_runs none = some nil
workflow_runs (some (arr vs)) = check_runs vs
workflow_runs (some v) = none

abbrev pub as_check_runs : Json → Option Json
as_check_runs (obj fs) = elim (workflow_runs (get "workflow_runs" fs)) [
  | none ↦ none
  | some runs ↦ some (
      obj (
        field "total_count" (elim (get "total_count" fs) [ none ↦ num 0 | some n ↦ n ])
          (field "check_runs" (arr runs) end)))
]
as_check_runs v = none

abbrev pub run_params : Text → List (Text × Text)
run_params sha = (codes "head_sha", sha) ∷ (codes "per_page", codes "50") ∷ []

unfoldable pub from_workflow_runs : Env → Text → M Json
unfolding check_runs
from_workflow_runs env sha =
    get_path env (codes "/actions/runs") (run_params sha) >>= λ runs. or_raise (as_check_runs runs)

-- `except GitHubAppError as e`, with the test of its text for 403
abbrev pub unless_forbidden : Env → Text → Failure → M Json
unless_forbidden env sha (github_error e) = elim (occurs_in (codes "403") e) [
  | true ↦ from_workflow_runs env sha
  | false ↦ raise (github_error e)
]
unless_forbidden env sha other_error = raise other_error

abbrev pub check_runs_path : Text → Text
check_runs_path sha = codes "/commits/" ++ sha ++ codes "/check-runs"

unfoldable pub status_of_head : Env → Text → M Json
unfolding from_workflow_runs
status_of_head env sha = attempt (get_path env (check_runs_path sha) []) (unless_forbidden env sha)

-- `pr["head"]["sha"]`, of which GitHub sends a text
abbrev pub head_sha : Json → Option Text
head_sha pr = elim (item "head" pr) [
  | none ↦ none
  | some head ↦ elim (item "sha" head) [ some (str sha) ↦ some sha | _ ↦ none ]
]

unfoldable pub get_pr_status : Env → ℕ → M Json
unfolding get_pr status_of_head
get_pr_status env n = get_pr env n >>= λ pr. or_raise (head_sha pr) >>= status_of_head env

abbrev pub label_request : Env → ℕ → Text → Request
label_request env n label = record {
  method = delete;
  path = repo_path env (issue n (codes "/labels/" ++ label));
  json = null;
  params = [];
}

-- A label that is not there is no error.
abbrev pub by_removed : Text → HttpAnswer → M Json
by_removed label r = elim (r.status == 404) [
  | true ↦ pure null
  | false ↦ elim (leb 400 r.status) [
    | true ↦ raise (
        github_error (
          codes "DELETE label "
          ++ label
          ++ codes " → "
          ++ number r.status
          ++ codes " : "
          ++ first 200 r.text))
    | false ↦ elim (is_empty r.text) [ true ↦ pure null | false ↦ or_raise r.value ]
  ]
]

unfoldable pub remove_label : Env → ℕ → Text → M Json
remove_label env n label = ask env (label_request env n label) >>= by_removed label

abbrev pub contents_request : Env → Text → Text → Request
contents_request env path ref = record {
  method = get_method;
  path = repo_path env (codes "/contents/" ++ path);
  json = null;
  params = (codes "ref", ref) ∷ [];
}

-- A file that is not there is None.
abbrev pub by_contents : Text → Text → HttpAnswer → M (Option Text)
by_contents path ref r = elim (r.status == 404) [
  | true ↦ pure none
  | false ↦ elim (leb 400 r.status) [
    | true ↦ raise (
        github_error (
          codes "GET file "
          ++ path
          ++ codes "@"
          ++ ref
          ++ codes " → "
          ++ number r.status
          ++ codes " : "
          ++ first 200 r.text))
    | false ↦ pure (some r.text)
  ]
]

unfoldable pub get_file_contents : Env → Text → Text → M (Option Text)
get_file_contents env path ref = ask env (contents_request env path ref) >>= by_contents path ref

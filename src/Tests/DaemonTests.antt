-- ===== src/Tests/DaemonTests.antt =====
-- The requests to GitHub, the worktrees and the loop of the orchestrator at concrete inputs.
use talki_llm_admission_sche.Base.{
  ◌≤◌, ◌≡◌, refl, sym, ap, inl, leb, true, false, Option, none, some, List, [], ◌∷◌, codes, arith,
  length,
}
use talki_llm_admission_sche.Base.Int.{pos}
use talki_llm_admission_sche.Orchestrator.Text.{same_text, lstrip_by, rstrip_by}
use talki_llm_admission_sche.Orchestrator.Json.{null, str, obj, field, end, get}
use talki_llm_admission_sche.Orchestrator.Github
use talki_llm_admission_sche.Orchestrator.Github.{
  access_token, with_token, HttpAnswer, Sent, pem, Client, new_client, with_offset, ask, token,
  refresh, ok,
}
use talki_llm_admission_sche.Orchestrator.Github.Methods.{from_workflow_runs, status_of_head}
use talki_llm_admission_sche.Orchestrator.Github.Fresh.{Documented, Authorized}
use talki_llm_admission_sche.Orchestrator.Github.Authorized.{
  listing_open_prs, getting_pr, after_all, after_all-Authorized,
}
use talki_llm_admission_sche.Orchestrator.Github.Statuses.{
  status_of_head-Forbidden, check_runs_request,
}
use talki_llm_admission_sche.Orchestrator.Roles.{Role}
use talki_llm_admission_sche.Orchestrator.Worktree
use talki_llm_admission_sche.Orchestrator.Worktree.{create_worktree, slug}
use talki_llm_admission_sche.Orchestrator.Worktree.Made.{Made, create_worktree-Made}
use talki_llm_admission_sche.Orchestrator.Worktree.Slugs.{IsSlug, slug-IsSlug}
use talki_llm_admission_sche.Orchestrator.Daemon
use talki_llm_admission_sche.Orchestrator.Daemon.{Happening, shutdown, ended, amain}
use talki_llm_admission_sche.Orchestrator.Daemon.Ends.{amain_ends}

-- The token with its expiry, an hour after the epoch.
abbrev granted : HttpAnswer
granted = record {
  status = 201;
  text = codes "{…}";
  value = some (
      obj (
        field "token" (str (codes "t1"))
          (field "expires_at" (str (codes "1970-01-01T01:00:00Z")) end)));
}

abbrev refused : HttpAnswer
refused = record { status = 403; text = codes "Resource not accessible"; value = some null }

abbrev answer : Sent → Option HttpAnswer
answer (access_token jwt) = some granted
answer (with_token t q) = some refused

abbrev github_env : Github.Env
github_env = record {
  app_id = codes "1";
  installation_id = codes "2";
  repo = codes "kola/poc";
  key = pem (codes "key");
  now = λ n. pos 1000000;
  now_seconds = λ n. pos 1;
  sign = λ issuer iat exp key. some key;
  from_iso = λ t. some (pos 3600000000);
  http = λ n s. answer s;
}

documented : Documented github_env
unfolding get
documented n jwt r h s = (
  codes "t1",
  pos 3600000000,
  record {
    value = _;
    date = codes "1970-01-01T01:00:00Z";
    value_eq = ap (λ o. elim o [ none ↦ none | some a ↦ a.value ]) (sym h);
    token_eq = refl;
    date_eq = refl;
    expires_eq = refl;
  },
)

after_all-Authorized_example :
    Authorized github_env
      (after_all github_env (getting_pr 7 ∷ listing_open_prs ∷ []) new_client).sent
after_all-Authorized_example =
    after_all-Authorized github_env documented (getting_pr 7 ∷ listing_open_prs ∷ [])

-- The client when it asks for the check runs for the first time.
abbrev asked : Client
asked = (ask github_env (check_runs_request github_env (codes "abc")) new_client).1

status_of_head-Forbidden_example :
    status_of_head github_env (codes "abc") new_client
    ≡ from_workflow_runs github_env (codes "abc") asked
unfolding ask token refresh get with_offset
status_of_head-Forbidden_example =
    status_of_head-Forbidden github_env (codes "abc") new_client asked refused refl refl (inl refl)

abbrev backend_role : Role
backend_role = record {
  name = codes "backend";
  git_name = codes "kola-backend-agent";
  git_email = codes "backend@kola-money.local";
  primary_alias = codes "coder";
  fallback_alias = none;
  daily_token_cap = 100000;
  llm_timeout_s = 300;
  fallback_timeout_s = 300;
}

-- Every command succeeds, and only the script of the hook is there.
abbrev worktree_env : Worktree.Env
worktree_env = record {
  lower = λ t. t;
  poc_root = codes "/poc";
  team_root = codes "/team";
  worktrees_root = codes "/agents";
  exists = λ n path. same_text path (codes "/team/scripts/install-precommit-hook.sh");
  run = λ n c. some (record { code = pos 0; out = []; err = [] });
}

abbrev made : Worktree.Worktree
made = Worktree.new_worktree worktree_env backend_role 12 (codes "Fix it!")

create_worktree-Made_example :
    let k = (create_worktree worktree_env backend_role 12 (codes "Fix it!") []).1 in
    (made ≡ made) × Made worktree_env made [] k
unfolding create_worktree same_text slug lstrip_by rstrip_by
create_worktree-Made_example =
    create_worktree-Made worktree_env backend_role 12 (codes "Fix it!") [] made
      (create_worktree worktree_env backend_role 12 (codes "Fix it!") []).1 refl

slug-IsSlug_example : IsSlug (slug (λ t. t) (codes "../a b"))
slug-IsSlug_example = slug-IsSlug (λ t. t) (codes "../a b")

slug_dots : slug (λ t. t) (codes "../a b") ≡ codes "a-b"
unfolding slug lstrip_by rstrip_by
slug_dots = refl

-- Each tick fails, and a signal comes before the tenth happening.
abbrev failing : Daemon.Env
failing = record {
  stopped = λ n. leb 10 n;
  tick_error = λ n. some (codes "boom");
  writes = λ n. true;
}

amain_ends_example :
    (k : List Happening) × (amain false 10 failing ≡ (ended, shutdown ∷ k)) × (length k ≤ 13)
amain_ends_example = amain_ends failing (λ n. refl) 10 (λ n h. ground (arith, h)) 10 (omega arith)

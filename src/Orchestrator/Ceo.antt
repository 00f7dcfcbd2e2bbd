-- ===== src/Orchestrator/Ceo.antt =====
-- orchestrator/roles/ceo.py: CEOAgent, which closes, merges or hands on the pull requests of the agents.
pub mod Safety
use talki_llm_admission_sche.Base.{
  ℕ, ◌||◌, Bool, true, false, Option, none, some, List, [], ◌∷◌, String, codes,
}
use talki_llm_admission_sche.Orchestrator.Text.{Text, same_text, occurs_in, any_suffix, starts_with}
use talki_llm_admission_sche.Orchestrator.Labels.{has_label, review_label}
use talki_llm_admission_sche.Orchestrator.Charter.{
  PullRequest, ChangedFile, CheckRun, Reason, is_agent_pr, check_charter_3,
}
use talki_llm_admission_sche.Orchestrator.Charter.Rejection.{Alphabet, check_charter_4}
use talki_llm_admission_sche.Orchestrator.Actions.{
  Action, get_files, get_status, approve_pr, merge_pr, close_pr, comment, add_labels, remove_label,
  log_event, list_open, rejected, merge_blocked, review_required, Failure, github_error, M, pure,
  raise, perform, try_github, try_any, ◌>>=◌, ◌>>◌,
}

pub record OpenPr : Type 0 where
  pub number : ℕ
  pub draft : Bool
  pub pull : PullRequest
  pub labels : List Text

-- GitHub and Python for the agent: which actions fail, by the number of the actions before, the files
-- and the check runs of each pull request, and `lower` on a text.
pub record GitHub : Type 0 where
  pub failure : ℕ → Option Failure
  pub files : ℕ → List ChangedFile
  pub runs : ℕ → List CheckRun
  pub open_prs : List OpenPr
  pub alphabet : Alphabet
  pub lower : Text → Text

-- Whether the branch protection has blocked a merge, by the text of the error.
abbrev pub is_protection : GitHub → Text → Bool
is_protection gh e =
    occurs_in (codes "405") e
    || occurs_in (codes "branch protection") (gh.lower e)
    || occurs_in (codes "approving review") (gh.lower e)

unfoldable pub mark_blocked : GitHub → OpenPr → Text → M (Unit {0})
unfolding has_label
mark_blocked gh pr e = do
  elim (has_label review_label pr.labels) [
    | true ↦ pure tt
    | false ↦ (do
      perform gh.failure (add_labels pr.number (review_label ∷ []))
      perform gh.failure (comment pr.number (merge_blocked e)))
  ]
  perform gh.failure (log_event "merge-blocked")

-- What follows a merge.
unfoldable pub after_merge : GitHub → OpenPr → M (Unit {0})
unfolding has_label
after_merge gh pr = do
  elim (has_label review_label pr.labels) [
    | true ↦ try_github (perform gh.failure (remove_label pr.number review_label)) (λ _. pure tt)
    | false ↦ pure tt
  ]
  perform gh.failure (add_labels pr.number (codes "auto-merged-by-ceo-agent" ∷ []))
  perform gh.failure (log_event "auto-merge")

-- The merge with its handler: whether the pull request is merged.
unfoldable pub try_merge : GitHub → OpenPr → M Bool
unfolding mark_blocked any_suffix starts_with
try_merge gh pr = try_github (perform gh.failure (merge_pr pr.number) >>= λ _. pure true) λ e.
    elim (is_protection gh e) [
      | true ↦ (mark_blocked gh pr e >>= λ _. pure false)
      | false ↦ raise (github_error e)
    ]

unfoldable pub merge : GitHub → OpenPr → M (Unit {0})
unfolding try_merge after_merge
merge gh pr = do
  try_github (perform gh.failure (approve_pr pr.number)) (λ _. pure tt)
  merged ← try_merge gh pr
  elim merged [ true ↦ after_merge gh pr | false ↦ pure tt ]

unfoldable pub hand_on : GitHub → OpenPr → Reason → M (Unit {0})
unfolding has_label
hand_on gh pr reason = elim (has_label review_label pr.labels) [
  | true ↦ pure tt
  | false ↦ (do
    perform gh.failure (add_labels pr.number (review_label ∷ []))
    perform gh.failure (comment pr.number (review_required reason))
    perform gh.failure (log_event "needs-human-review"))
]

unfoldable pub by_charter_3 : GitHub → OpenPr → Option Reason → M (Unit {0})
unfolding merge hand_on
by_charter_3 gh pr none = merge gh pr
by_charter_3 gh pr (some reason) = hand_on gh pr reason

unfoldable pub by_charter_4 : GitHub → OpenPr → Option Reason → M (Unit {0})
unfolding by_charter_3 check_charter_3
by_charter_4 gh pr (some reason) = do
  perform gh.failure (comment pr.number (rejected reason))
  perform gh.failure (close_pr pr.number)
  perform gh.failure (log_event "auto-close")
by_charter_4 gh pr none =
    by_charter_3 gh pr (check_charter_3 pr.pull (gh.files pr.number) (gh.runs pr.number))

unfoldable pub review_checked : GitHub → OpenPr → M (Unit {0})
unfolding by_charter_4 check_charter_4
review_checked gh pr = do
  perform gh.failure (get_files pr.number)
  perform gh.failure (get_status pr.number)
  by_charter_4 gh pr (check_charter_4 gh.alphabet (gh.files pr.number))

-- `_review_pr`
unfoldable pub review_pr : GitHub → OpenPr → M (Unit {0})
unfolding review_checked is_agent_pr
review_pr gh pr = elim pr.draft [
  | true ↦ pure tt
  | false ↦ elim (is_agent_pr pr.pull.login) [ true ↦ review_checked gh pr | false ↦ pure tt ]
]

unfoldable pub review_all : GitHub → List OpenPr → M (Unit {0})
unfolding review_pr
review_all gh [] = pure tt
review_all gh (pr ∷ prs) = do
  try_any (review_pr gh pr) (perform gh.failure (log_event "review-fail"))
  review_all gh prs

-- The list of open pull requests, or nothing if it cannot be had.
unfoldable pub list_prs : GitHub → M (List OpenPr)
list_prs gh =
    try_github (perform gh.failure (list_open 0) >>= λ _. pure gh.open_prs)
      λ _. (perform gh.failure (log_event "heartbeat-fail") >>= λ _. pure [])

-- `heartbeat`, by whether KOLA_CEO_PAUSED is set.
unfoldable pub heartbeat : GitHub → Bool → M (Unit {0})
unfolding list_prs review_all
heartbeat gh paused = elim paused [
  | true ↦ perform gh.failure (log_event "paused")
  | false ↦ (list_prs gh >>= review_all gh)
]

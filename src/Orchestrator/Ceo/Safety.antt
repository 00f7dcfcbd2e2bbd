-- ===== src/Orchestrator/Ceo/Safety.antt =====
-- What the CEO agent merges and closes.
use talki_llm_admission_sche.Base.{
  ℕ, ◌≡◌, refl, inl, inr, Bool, true, false, Option, none, some, List, [], ◌∷◌, All, Among, codes,
}
use talki_llm_admission_sche.Orchestrator.Text.{Text}
use talki_llm_admission_sche.Orchestrator.Labels.{has_label, review_label}
use talki_llm_admission_sche.Orchestrator.Charter.{Reason, is_agent_pr, check_charter_3}
use talki_llm_admission_sche.Orchestrator.Charter.Rejection.{check_charter_4}
use talki_llm_admission_sche.Orchestrator.Charter.Laws.{IsMergeable, check_charter_3_iff}
use talki_llm_admission_sche.Orchestrator.Charter.Rejected.{IsTolerable, check_charter_4_iff}
use talki_llm_admission_sche.Orchestrator.Actions.{
  Action, approve_pr, add_labels, merge_pr, close_pr, get_files, get_status, log_event, list_open,
  github_error,
}
use talki_llm_admission_sche.Orchestrator.Actions.Rules.{
  Only, only, pure-Only, raise-Only, bind-Only, then-Only, perform-Only, try_any-Only,
  try_github-Only, branch-Only, split-Only,
}
use talki_llm_admission_sche.Orchestrator.Actions.Results.{
  pure-Gives, then-Gives, try_github-Gives, bind-Gives,
}
use talki_llm_admission_sche.Orchestrator.Ceo.{
  OpenPr, GitHub, is_protection, mark_blocked, after_merge, try_merge, merge, hand_on, by_charter_3,
  by_charter_4, review_checked, review_pr, review_all, list_prs, heartbeat,
}

-- A pull request may be merged: it is the one of that number, no draft, and both sections of the charter
-- let it pass.
pub record MayMerge (gh : GitHub) (n : ℕ) (pr : OpenPr) : Type 0 where
  pub same : pr.number ≡ n
  pub ready : pr.draft ≡ false
  pub mergeable : IsMergeable pr.pull (gh.files n) (gh.runs n)
  pub tolerable : IsTolerable gh.alphabet (gh.files n)

-- A pull request may be closed: it is the one of that number, an agent's, no draft, and breaks section 4.
pub record MayClose (gh : GitHub) (n : ℕ) (pr : OpenPr) : Type 0 where
  pub same : pr.number ≡ n
  pub ready : pr.draft ≡ false
  pub agent : is_agent_pr pr.pull.login ≡ true
  pub intolerable : ¬ IsTolerable gh.alphabet (gh.files n)

-- What is asked of an action, by what is asked of a merge and of a closing.
abbrev pub Allowed : (ℕ → Type 0) → (ℕ → Type 0) → Action → Type 0
Allowed P Q (merge_pr n) = P n
Allowed P Q (close_pr n) = Q n
Allowed P Q _ = Unit

module _ (gh : GitHub) (P Q : ℕ → Type 0) where
  mark_blocked-Only : (pr : OpenPr) (e : Text) → Only (Allowed P Q) (mark_blocked gh pr e)
  unfolding mark_blocked
  mark_blocked-Only pr e =
      then-Only (branch-Only (has_label review_label pr.labels) (pure-Only tt) (search only))
        (perform-Only gh.failure (log_event "merge-blocked") tt)

  after_merge-Only : (pr : OpenPr) → Only (Allowed P Q) (after_merge gh pr)
  unfolding after_merge
  after_merge-Only pr =
      then-Only (branch-Only (has_label review_label pr.labels) (search only) (pure-Only tt)) (
        then-Only
          (perform-Only gh.failure (add_labels pr.number (codes "auto-merged-by-ceo-agent" ∷ []))
            tt)
          (perform-Only gh.failure (log_event "auto-merge") tt))

  hand_on-Only : (pr : OpenPr) (r : Reason) → Only (Allowed P Q) (hand_on gh pr r)
  unfolding hand_on
  hand_on-Only pr r = branch-Only (has_label review_label pr.labels) (pure-Only tt) (search only)

  merge-Only : (pr : OpenPr) → P pr.number → Only (Allowed P Q) (merge gh pr)
  unfolding merge try_merge
  merge-Only pr may =
      then-Only
        (try_github-Only (perform-Only gh.failure (approve_pr pr.number) tt) (λ _. pure-Only tt))
        (bind-Only
          (try_github-Only
            (bind-Only (perform-Only gh.failure (merge_pr pr.number) may) (λ _. pure-Only true))
            (λ e.
              branch-Only (is_protection gh e)
                (bind-Only (mark_blocked-Only pr e) (λ _. pure-Only false))
                (raise-Only (github_error e))))
          (λ merged. branch-Only merged (after_merge-Only pr) (pure-Only tt)))

  close-Only :
      (pr : OpenPr) (r : Reason) → Q pr.number → Only (Allowed P Q) (by_charter_4 gh pr (some r))
  unfolding by_charter_4
  close-Only pr r may = search only

module _ (gh : GitHub) (P Q : ℕ → Type 0) (pr : OpenPr)
    (to_P : MayMerge gh pr.number pr → P pr.number)
    (to_Q : MayClose gh pr.number pr → Q pr.number) where
  by_charter_3-Only :
      (o : Option Reason)
      → check_charter_3 pr.pull (gh.files pr.number) (gh.runs pr.number) ≡ o
      → pr.draft ≡ false
      → IsTolerable gh.alphabet (gh.files pr.number)
      → Only (Allowed P Q) (by_charter_3 gh pr o)
  unfolding by_charter_3
  by_charter_3-Only none h ready tolerable = merge-Only gh P Q pr (
      to_P (record {
        same = refl;
        ready = ready;
        mergeable = (check_charter_3_iff pr.pull (gh.files pr.number) (gh.runs pr.number)).0 h;
        tolerable = tolerable;
      }))
  by_charter_3-Only (some r) h ready tolerable = hand_on-Only gh P Q pr r

  by_charter_4-Only :
      (o : Option Reason)
      → check_charter_4 gh.alphabet (gh.files pr.number) ≡ o
      → pr.draft ≡ false
      → is_agent_pr pr.pull.login ≡ true
      → Only (Allowed P Q) (by_charter_4 gh pr o)
  by_charter_4-Only none h ready agent =
      unfold by_charter_4 in
      by_charter_3-Only (check_charter_3 pr.pull (gh.files pr.number) (gh.runs pr.number)) refl
        ready ((check_charter_4_iff gh.alphabet (gh.files pr.number)).0 h)
  by_charter_4-Only (some r) h ready agent = close-Only gh P Q pr r (
      to_Q (record {
        same = refl;
        ready = ready;
        agent = agent;
        intolerable = λ t. cc (h, (check_charter_4_iff gh.alphabet (gh.files pr.number)).1 t);
      }))

  review_pr-Only : Only (Allowed P Q) (review_pr gh pr)
  unfolding review_pr review_checked
  review_pr-Only =
      split-Only pr.draft (λ d. pure-Only tt)
        λ d.
          split-Only (is_agent_pr pr.pull.login)
            (λ a. then-Only (perform-Only gh.failure (get_files pr.number) tt) (
              then-Only (perform-Only gh.failure (get_status pr.number) tt)
                (by_charter_4-Only (check_charter_4 gh.alphabet (gh.files pr.number)) refl d a)))
            (λ a. pure-Only tt)

module _ (gh : GitHub) (P Q : ℕ → Type 0) where
  review_all-Only :
      (prs : List OpenPr)
      → ((n : ℕ) → Among (MayMerge gh n) prs → P n)
      → ((n : ℕ) → Among (MayClose gh n) prs → Q n)
      → Only (Allowed P Q) (review_all gh prs)
  unfolding review_all
  review_all-Only [] p q = pure-Only tt
  review_all-Only (pr ∷ prs) p q =
      then-Only
        (try_any-Only
          (review_pr-Only gh P Q pr (λ may. p pr.number (inl may)) (λ may. q pr.number (inl may)))
          (perform-Only gh.failure (log_event "review-fail") tt))
        (review_all-Only prs (λ n may. p n (inr may)) (λ n may. q n (inr may)))

-- Whatever fails, and whatever the pull requests are, one heartbeat of the CEO agent merges a pull
-- request only if it is open, no draft, and passes both sections of the charter, with the files and the
-- check runs that GitHub gives for it; and closes one only if it is open, no draft, an agent's, and breaks
-- section 4.
pub ceo_heartbeat_safe :
    (gh : GitHub) (paused : Bool)
    → All
        (Allowed (λ n. Among (MayMerge gh n) gh.open_prs) (λ n. Among (MayClose gh n) gh.open_prs))
        (heartbeat gh paused []).1
unfolding heartbeat list_prs
ceo_heartbeat_safe gh paused =
    let P = λ (n : ℕ). Among (MayMerge gh n) gh.open_prs in
    let Q = λ (n : ℕ). Among (MayClose gh n) gh.open_prs in
    let all : Only (Allowed P Q) (review_all gh gh.open_prs) =
      review_all-Only gh P Q gh.open_prs (λ n may. may) (λ n may. may) in
    (branch-Only paused (perform-Only gh.failure (log_event "paused") tt) (
        bind-Gives {R = λ prs. Only (Allowed P Q) (review_all gh prs)}
          (try_github-Gives
            (then-Gives (perform-Only gh.failure (list_open 0) tt) (pure-Gives gh.open_prs all))
            (λ _.
              then-Gives (perform-Only gh.failure (log_event "heartbeat-fail") tt)
                (pure-Gives [] (review_all-Only gh P Q [] (λ n. elim [ ]) (λ n. elim [ ])))))
          (λ prs h. h))).run
      [] tt

-- ===== src/Orchestrator/Github/Statuses.antt =====
-- When `get_pr_status` falls back to the workflow runs.
use talki_llm_admission_sche.Base.{leb, ◌≡◌, refl, ◌⊎◌, inl, inr, true, [], ◌∷◌, ◌++◌, codes, arith}
use talki_llm_admission_sche.Base.Int.{pos}
use talki_llm_admission_sche.Base.Decimal
use talki_llm_admission_sche.Orchestrator.Text.{Text, occurs_in, any_suffix, starts_with}
use talki_llm_admission_sche.Orchestrator.Json.{null}
use talki_llm_admission_sche.Orchestrator.Github.{
  Env, Request, get_method, HttpAnswer, Client, github_error, ok, failed, first, by_status,
  status_error, status_text, ask, req,
}
use talki_llm_admission_sche.Orchestrator.Github.Methods.{
  repo_path, check_runs_path, unless_forbidden, from_workflow_runs, status_of_head,
}

starts_with-append : (p s b : Text) → starts_with p s ≡ true → starts_with p (s ++ b) ≡ true
unfolding starts_with
starts_with-append [] s b h = refl
starts_with-append (c ∷ p) [] b h = absurd (cc)
starts_with-append (c ∷ p) (d ∷ s) b h = ground (arith, starts_with-append p s b)

starts_with-nil : (p b : Text) → starts_with p [] ≡ true → any_suffix (starts_with p) b ≡ true
unfolding starts_with any_suffix
starts_with-nil [] [] h = refl
starts_with-nil [] (c ∷ b) h = refl
starts_with-nil (c ∷ p) b h = absurd (cc)

occurs_in-append_left : (p a s : Text) → occurs_in p s ≡ true → occurs_in p (a ++ s) ≡ true
unfolding any_suffix
occurs_in-append_left p [] s h = h
occurs_in-append_left p (c ∷ a) s h = ground (arith, occurs_in-append_left p a s h)

occurs_in-append_right : (p s b : Text) → occurs_in p s ≡ true → occurs_in p (s ++ b) ≡ true
unfolding any_suffix
occurs_in-append_right p [] b h = starts_with-nil p b h
occurs_in-append_right p (c ∷ s) b h =
    ground (arith, starts_with-append p (c ∷ s) b, occurs_in-append_right p s b)

abbrev pub forbidden_code : Text
forbidden_code = codes "403"

code_mentioned : occurs_in forbidden_code (codes (Decimal.str (pos 403))) ≡ true
unfolding any_suffix starts_with Decimal.str Decimal.decimal
code_mentioned = refl

-- An answer that is refused for want of a permission, or one whose text has the digits of that status.
abbrev pub Forbidden : HttpAnswer → Type 0
Forbidden r = (r.status ≡ 403) ⊎ (occurs_in forbidden_code (first 400 r.text) ≡ true)

mentioned :
    (q : Request) (r : HttpAnswer) → Forbidden r → occurs_in forbidden_code (status_text q r) ≡ true
mentioned q r (inl h) = occurs_in-append_right forbidden_code _ (first 400 r.text) (
    occurs_in-append_right forbidden_code _ (codes " : ") (
      occurs_in-append_left forbidden_code _ (codes (Decimal.str (pos r.status)))
        (rw h code_mentioned)))
mentioned q r (inr h) = occurs_in-append_left forbidden_code _ (first 400 r.text) h

abbrev pub check_runs_request : Env → Text → Request
check_runs_request env sha = record {
  method = get_method;
  path = repo_path env (check_runs_path sha);
  json = null;
  params = [];
}

by_status-refused :
    (q : Request) (r : HttpAnswer) (d : Client)
    → leb 400 r.status ≡ true
    → by_status q r d ≡ (failed (status_error q r), d)
by_status-refused q r d h = rw (h, by_status) refl

unless_forbidden-mentioned :
    (env : Env) (sha : Text) (d : Client) (t : Text)
    → occurs_in forbidden_code t ≡ true
    → unless_forbidden env sha (github_error t) d ≡ from_workflow_runs env sha d
unless_forbidden-mentioned env sha d t h = rw (h, unless_forbidden) refl

module _ (env : Env) (sha : Text) (c d : Client) (r : HttpAnswer)
    (answered : ask env (check_runs_request env sha) c ≡ (ok r, d)) where
  refused :
      leb 400 r.status ≡ true
      → req env (check_runs_request env sha) c
        ≡ (failed (status_error (check_runs_request env sha) r), d)
  unfolding req
  refused h = rw answered (by_status-refused (check_runs_request env sha) r d h)

  -- An answer 403 to the request for the check runs of a commit makes the method ask for the workflow runs; so does
  -- every other answer from 400 on with "403" in the first 400 characters of its text.
  pub status_of_head-Forbidden :
      leb 400 r.status ≡ true
      → Forbidden r
      → status_of_head env sha c ≡ from_workflow_runs env sha d
  unfolding status_of_head
  status_of_head-Forbidden h f = rw (refused h) (
      unless_forbidden-mentioned env sha d (status_text (check_runs_request env sha) r)
        (mentioned (check_runs_request env sha) r f))

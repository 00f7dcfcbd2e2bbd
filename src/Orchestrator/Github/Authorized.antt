-- ===== src/Orchestrator/Github/Authorized.antt =====
-- Whatever methods are called, and however the requests end, each goes with a valid token.
use talki_llm_admission_sche.Base.{ℕ, ◌==◌, leb, ◌||◌, Bool, List, [], ◌∷◌, codes}
use talki_llm_admission_sche.Orchestrator.Text.{Text, is_empty, occurs_in}
use talki_llm_admission_sche.Orchestrator.Github.{
  Env, Request, HttpAnswer, Client, Failure, github_error, other_error, by_status, new_client, req,
}
use talki_llm_admission_sche.Orchestrator.Github.Methods.{
  list_open_prs, get_pr, get_pr_files, comment_pr, add_labels, approve_pr, merge_pr, close_pr,
  comment_issue, list_issue_comments, set_issue_labels, get_repo, create_pull_request,
  list_open_issues, from_workflow_runs, status_of_head, get_pr_status, remove_label,
  get_file_contents, by_removed, by_contents, unless_forbidden,
}
use talki_llm_admission_sche.Orchestrator.Github.Rules.{
  Keeps, pure-Hoare, raise-Hoare, branch-Hoare, or_raise-Keeps, after-Keeps, attempt-Keeps,
}
use talki_llm_admission_sche.Orchestrator.Github.Fresh.{Documented, Authorized, Kept, ask-Keeps}

-- A call of a method.
pub data Operation : Type 0 where
  listing_open_prs getting_repo : Operation
  getting_pr getting_files getting_status closing_pr listing_comments : ℕ → Operation
  commenting_pr approving_pr commenting_issue : ℕ → Text → Operation
  adding_labels setting_labels : ℕ → List Text → Operation
  merging_pr : ℕ → Text → Text → Operation
  listing_issues : List Text → Operation
  removing_label : ℕ → Text → Operation
  creating_pr : Text → Text → Text → Text → Bool → Operation
  getting_contents : Text → Text → Operation

-- The object after the call.
abbrev pub after : Env → Operation → Client → Client
after env listing_open_prs c = (list_open_prs env c).1
after env getting_repo c = (get_repo env c).1
after env (getting_pr n) c = (get_pr env n c).1
after env (getting_files n) c = (get_pr_files env n c).1
after env (getting_status n) c = (get_pr_status env n c).1
after env (closing_pr n) c = (close_pr env n c).1
after env (listing_comments n) c = (list_issue_comments env n c).1
after env (commenting_pr n t) c = (comment_pr env n t c).1
after env (approving_pr n t) c = (approve_pr env n t c).1
after env (commenting_issue n t) c = (comment_issue env n t c).1
after env (adding_labels n ls) c = (add_labels env n ls c).1
after env (setting_labels n ls) c = (set_issue_labels env n ls c).1
after env (merging_pr n t m) c = (merge_pr env n t m c).1
after env (listing_issues ls) c = (list_open_issues env ls c).1
after env (removing_label n l) c = (remove_label env n l c).1
after env (creating_pr t b h base draft) c = (create_pull_request env t b h base draft c).1
after env (getting_contents p r) c = (get_file_contents env p r c).1

abbrev pub after_all : Env → List Operation → Client → Client
after_all env [] c = c
after_all env (o ∷ os) c = after_all env os (after env o c)

module _ {inv : Client → Type 0} where
  by_status-Keeps : (q : Request) (r : HttpAnswer) → Keeps inv (by_status q r)
  by_status-Keeps q r =
      branch-Hoare (leb 400 r.status) (λ _. raise-Hoare _)
        λ _.
          branch-Hoare ((r.status == 204) || is_empty r.text) (λ _. pure-Hoare _ (λ c p. tt))
            λ _. or_raise-Keeps r.value

  by_removed-Keeps : (l : Text) (r : HttpAnswer) → Keeps inv (by_removed l r)
  by_removed-Keeps l r =
      branch-Hoare (r.status == 404) (λ _. pure-Hoare _ (λ c p. tt))
        λ _.
          branch-Hoare (leb 400 r.status) (λ _. raise-Hoare _)
            λ _.
              branch-Hoare (is_empty r.text) (λ _. pure-Hoare _ (λ c p. tt))
                λ _. or_raise-Keeps r.value

  by_contents-Keeps : (p ref : Text) (r : HttpAnswer) → Keeps inv (by_contents p ref r)
  by_contents-Keeps p ref r =
      branch-Hoare (r.status == 404) (λ _. pure-Hoare _ (λ c p. tt))
        λ _. branch-Hoare (leb 400 r.status) (λ _. raise-Hoare _) λ _. pure-Hoare _ (λ c p. tt)

module _ (env : Env) (documented : Documented env) where
  req-Keeps : (q : Request) → Keeps (Kept env) (req env q)
  unfolding req
  req-Keeps q = after-Keeps (ask-Keeps env documented q) (by_status-Keeps q)

  from_workflow_runs-Keeps : (sha : Text) → Keeps (Kept env) (from_workflow_runs env sha)
  unfolding from_workflow_runs
  from_workflow_runs-Keeps sha = after-Keeps (req-Keeps _) (λ runs. or_raise-Keeps _)

  unless_forbidden-Keeps :
      (sha : Text) (e : Failure) → Keeps (Kept env) (unless_forbidden env sha e)
  unless_forbidden-Keeps sha (github_error t) =
      branch-Hoare (occurs_in (codes "403") t) (λ _. from_workflow_runs-Keeps sha)
        λ _. raise-Hoare _
  unless_forbidden-Keeps sha other_error = raise-Hoare other_error

  list_open_issues-Keeps : (ls : List Text) → Keeps (Kept env) (list_open_issues env ls)
  unfolding list_open_issues
  list_open_issues-Keeps ls = after-Keeps (req-Keeps _) (λ all. or_raise-Keeps _)

  get_pr_status-Keeps : (n : ℕ) → Keeps (Kept env) (get_pr_status env n)
  unfolding get_pr_status status_of_head get_pr
  get_pr_status-Keeps n = after-Keeps (req-Keeps _) λ pr.
      after-Keeps (or_raise-Keeps _) λ sha. attempt-Keeps (req-Keeps _) (unless_forbidden-Keeps sha)

  remove_label-Keeps : (n : ℕ) (l : Text) → Keeps (Kept env) (remove_label env n l)
  unfolding remove_label
  remove_label-Keeps n l = after-Keeps (ask-Keeps env documented _) (by_removed-Keeps l)

  get_file_contents-Keeps : (p ref : Text) → Keeps (Kept env) (get_file_contents env p ref)
  unfolding get_file_contents
  get_file_contents-Keeps p ref = after-Keeps (ask-Keeps env documented _) (by_contents-Keeps p ref)

  after-Kept : (o : Operation) (c : Client) → Kept env c → Kept env (after env o c)
  unfolding list_open_prs get_repo get_pr get_pr_files close_pr list_issue_comments comment_pr
      approve_pr comment_issue add_labels set_issue_labels merge_pr create_pull_request
  after-Kept listing_open_prs c k = ((req-Keeps _).run c k tt).0
  after-Kept getting_repo c k = ((req-Keeps _).run c k tt).0
  after-Kept (getting_pr n) c k = ((req-Keeps _).run c k tt).0
  after-Kept (getting_files n) c k = ((req-Keeps _).run c k tt).0
  after-Kept (getting_status n) c k = ((get_pr_status-Keeps n).run c k tt).0
  after-Kept (closing_pr n) c k = ((req-Keeps _).run c k tt).0
  after-Kept (listing_comments n) c k = ((req-Keeps _).run c k tt).0
  after-Kept (commenting_pr n t) c k = ((req-Keeps _).run c k tt).0
  after-Kept (approving_pr n t) c k = ((req-Keeps _).run c k tt).0
  after-Kept (commenting_issue n t) c k = ((req-Keeps _).run c k tt).0
  after-Kept (adding_labels n ls) c k = ((req-Keeps _).run c k tt).0
  after-Kept (setting_labels n ls) c k = ((req-Keeps _).run c k tt).0
  after-Kept (merging_pr n t m) c k = ((req-Keeps _).run c k tt).0
  after-Kept (listing_issues ls) c k = ((list_open_issues-Keeps ls).run c k tt).0
  after-Kept (removing_label n l) c k = ((remove_label-Keeps n l).run c k tt).0
  after-Kept (creating_pr t b h base draft) c k = ((req-Keeps _).run c k tt).0
  after-Kept (getting_contents p r) c k = ((get_file_contents-Keeps p r).run c k tt).0

  after_all-Kept : (os : List Operation) (c : Client) → Kept env c → Kept env (after_all env os c)
  after_all-Kept [] c k = k
  after_all-Kept (o ∷ os) c k = after_all-Kept os (after env o c) (after-Kept o c k)

  -- If each answer 201 of GitHub to the request for a token has a token and the date of its expiry, then whatever
  -- methods are called of a new client, and however the requests end, each request on the repository goes with a
  -- token that GitHub issued, and which it issued just before, or which has more than ten minutes left by the clock.
  pub after_all-Authorized :
      (os : List Operation) → Authorized env (after_all env os new_client).sent
  after_all-Authorized os =
      (after_all-Kept os new_client
        (record { authorized = tt; issued = λ t e h. absurd (cc) })).authorized

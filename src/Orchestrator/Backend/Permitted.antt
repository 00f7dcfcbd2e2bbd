-- ===== src/Orchestrator/Backend/Permitted.antt =====
-- What the backend agent may do, and that it keeps to it when it asks for a change and writes it.
use talki_llm_admission_sche.Base.{
  ℕ, String, ◌≡◌, ◌⊎◌, inl, refl, Bool, true, false, Option, none, some, List, [], ◌∷◌, All,
}
use talki_llm_admission_sche.Orchestrator.Text.{Text}
use talki_llm_admission_sche.Orchestrator.Actions.{
  Action, Obstacle, other_error, M, list_comments, comment, agent_blocked, add_labels, remove_label,
  remove_worktree, git_add, git_diff, create_pr, ask_llm, create_worktree, git_commit, git_push,
  make_parent, write_file, reserve_tokens, log_event, approve_pr, merge_pr, close_pr, set_labels,
}
use talki_llm_admission_sche.Orchestrator.Actions.Rules.{
  Only, only, pure-Only, raise-Only, bind-Only, then-Only, perform-Only, observe-Only, branch-Only,
  try_github-Only,
}
use talki_llm_admission_sche.Orchestrator.Backend.{
  FileChange, GeneratedChanges, Proposal, Reply, replied, timed_out, llm_error, Reserved, granted,
  exceeded, unavailable, Env, inprogress_label, blocked_label,
}
use talki_llm_admission_sche.Orchestrator.Backend.Paths.{joined, all_files, validate_paths}
use talki_llm_admission_sche.Orchestrator.Backend.Paths.Laws.{IsAccepted, validate_paths_iff}
use talki_llm_admission_sche.Orchestrator.Backend.Changes.{
  is_nil, give_up, expected_tokens, settle, by_reply, consult, by_reserved, ask, finish_changes,
  finish_fix, write_content, write_one, write_each, write_files,
}
use talki_llm_admission_sche.Orchestrator.Backend.Work.{block}

-- The place belongs to a path that the check accepts, in the worktree of an issue that may be worked on.
pub record MayWrite (env : Env) (P : ℕ → Type 0) (target : Text) : Type 0 where
  pub issue : ℕ
  pub taken : P issue
  pub change : FileChange
  pub path : Text
  pub same : change.path ≡ some path
  pub accepted : IsAccepted change
  pub place : target ≡ joined (env.worktree issue) path

-- The number of a pull request that GitHub has just given to the agent.
abbrev pub IsNewPr : Env → ℕ → Type 0
IsNewPr env n = (k : ℕ) × (env.new_pr k ≡ n)

-- What is asked of an action, by which issues may be worked on: comments and new labels are for such an issue or for
-- the pull request that the agent has opened.
abbrev pub Permitted : Env → (ℕ → Type 0) → Action → Type 0
Permitted env P (make_parent target) = MayWrite env P target
Permitted env P (write_file target) = MayWrite env P target
Permitted env P (list_comments n) = P n
Permitted env P (comment n text) = P n ⊎ IsNewPr env n
Permitted env P (add_labels n labels) = P n ⊎ IsNewPr env n
Permitted env P (remove_label n name) = P n
Permitted env P (create_worktree n) = P n
Permitted env P (remove_worktree n) = P n
Permitted env P (git_add n) = P n
Permitted env P (git_diff n) = P n
Permitted env P (git_commit n) = P n
Permitted env P (git_push n) = P n
Permitted env P (create_pr n) = P n
Permitted env P (approve_pr n) = ⊥
Permitted env P (merge_pr n) = ⊥
Permitted env P (close_pr n) = ⊥
Permitted env P (set_labels n labels) = ⊥
Permitted env P _ = Unit

module _ (env : Env) (P : ℕ → Type 0) where
  pub block-Only : (n : ℕ) → P n → (reason : Obstacle) → Only (Permitted env P) (block env n reason)
  unfolding block
  block-Only n taken reason =
      then-Only (perform-Only env.failure (comment n (agent_blocked reason)) (inl taken)) (
        then-Only
          (try_github-Only (perform-Only env.failure (remove_label n inprogress_label) taken)
            (λ _. pure-Only tt))
          (then-Only
            (try_github-Only
              (perform-Only env.failure (add_labels n (blocked_label ∷ [])) (inl taken))
              (λ _. pure-Only tt))
            (perform-Only env.failure (log_event "blocked") tt)))

  give_up-Only : (event : String) → Only (Permitted env P) (give_up env event)
  give_up-Only event = search only

  settle-Only : (reserved : Bool) (tokens : ℕ) → Only (Permitted env P) (settle env reserved tokens)
  settle-Only true tokens = search only
  settle-Only false tokens = search only

  module _ (finish : Option Proposal → M (Option GeneratedChanges))
      (finished : (p : Option Proposal) → Only (Permitted env P) (finish p)) where
    by_reply-Only :
        (reserved : Bool) (r : Reply) → Only (Permitted env P) (by_reply env reserved finish r)
    by_reply-Only reserved (replied content tokens) =
        then-Only (settle-Only reserved tokens) (finished content)
    by_reply-Only reserved timed_out =
        then-Only (settle-Only reserved expected_tokens) (give_up-Only "llm-timeout")
    by_reply-Only reserved llm_error =
        then-Only (settle-Only reserved expected_tokens) (give_up-Only "llm-error")

    consult-Only : (reserved : Bool) → Only (Permitted env P) (consult env finish reserved)
    consult-Only reserved =
        then-Only (perform-Only env.failure ask_llm tt)
          (bind-Only (observe-Only env.reply) (by_reply-Only reserved))

    by_reserved-Only : (r : Reserved) → Only (Permitted env P) (by_reserved env finish r)
    by_reserved-Only granted = consult-Only true
    by_reserved-Only exceeded = search only
    by_reserved-Only unavailable =
        then-Only (perform-Only env.failure (log_event "budget-unavailable") tt)
          (consult-Only false)

    pub ask-Only : Only (Permitted env P) (ask env finish)
    unfolding ask
    ask-Only =
        then-Only (perform-Only env.failure (reserve_tokens expected_tokens) tt)
          (bind-Only (observe-Only env.reserved) by_reserved-Only)

  pub finish_changes-Only : (p : Option Proposal) → Only (Permitted env P) (finish_changes env p)
  finish_changes-Only none = search only
  finish_changes-Only (some p) = branch-Only p.is_blocked (search only) (pure-Only _)

  pub finish_fix-Only :
      (previous : GeneratedChanges) (p : Option Proposal)
      → Only (Permitted env P) (finish_fix env previous p)
  finish_fix-Only previous none = search only
  finish_fix-Only previous (some p) = pure-Only _

  write_one-Only :
      (n : ℕ)
      → P n
      → (f : FileChange) (path : Option Text) → f.path ≡ path
      → IsAccepted f
      → Only (Permitted env P) (write_one env (env.worktree n) path f.content)
  write_one-Only n taken f none e accepted = raise-Only other_error
  write_one-Only n taken f (some path) e accepted =
      let may : MayWrite env P (joined (env.worktree n) path) = record {
        issue = n;
        taken = taken;
        change = f;
        path = path;
        same = e;
        accepted = accepted;
        place = refl;
      } in
      then-Only (perform-Only env.failure (make_parent (joined (env.worktree n) path)) may)
        (write_content-Only f.content (joined (env.worktree n) path) may)
    where
      write_content-Only :
          (content : Option Text) (target : Text)
          → MayWrite env P target
          → Only (Permitted env P) (write_content env target content)
      write_content-Only none target may = raise-Only other_error
      write_content-Only (some content) target may =
          perform-Only env.failure (write_file target) may

  write_each-Only :
      (n : ℕ)
      → P n
      → (files : List FileChange) → All IsAccepted files
      → Only (Permitted env P) (write_each env (env.worktree n) files)
  unfolding write_each
  write_each-Only n taken [] h = pure-Only tt
  write_each-Only n taken (f ∷ files) h =
      then-Only (write_one-Only n taken f f.path refl h.0) (write_each-Only n taken files h.1)

  pub checked_write-Only :
      (n : ℕ)
      → P n
      → (changes : GeneratedChanges) → is_nil (validate_paths changes) ≡ true
      → Only (Permitted env P) (write_files env (env.worktree n) changes)
  unfolding write_files
  checked_write-Only n taken changes h =
      write_each-Only n taken (all_files changes)
        ((validate_paths_iff changes).0 (nil_of (validate_paths changes) h))
    where
      nil_of : (l : List Text) → is_nil l ≡ true → l ≡ []
      nil_of [] h = refl
      nil_of (x ∷ l) h = absurd (cc)

-- ===== src/Orchestrator/Backend/Work/Cleanup.antt =====
-- The worktree is removed, and the tests are tried a bounded number of times.
use talki_llm_admission_sche.Base.{ℕ, ◌≡◌, refl, ◌∙◌, Option, none, some, List, ◌∷◌, length}
use talki_llm_admission_sche.Orchestrator.Actions.{
  Action, Failure, Result, ok, failed, pure, perform, try_any, answer_of, crashed, remove_worktree,
}
use talki_llm_admission_sche.Orchestrator.Actions.Rules.{finally_trace}
use talki_llm_admission_sche.Orchestrator.Backend.{Env}
use talki_llm_admission_sche.Orchestrator.Backend.Work.{in_worktree, produce, block}

removal_last :
    (n : ℕ) (l : List Action) (o : Option Failure)
    → (elim (answer_of o) as (λ _. Result (Unit {0}) × List Action) [
      | ok a ↦ (ok a, remove_worktree n ∷ l)
      | failed e ↦ pure tt (remove_worktree n ∷ l)
    ]).1
      ≡ remove_worktree n ∷ l
removal_last n l none = refl
removal_last n l (some e) = refl

-- However the work on an issue ends, in a pull request, a block, or an exception of `_block` itself, the
-- last that the agent does in a worktree is to remove it.
pub in_worktree_removes :
    (env : Env) (n : ℕ) (l : List Action)
    → (before : List Action) × ((in_worktree env n l).1 ≡ remove_worktree n ∷ before)
unfolding in_worktree
in_worktree_removes env n l =
    let work = try_any (produce env n) (block env n crashed) in
    let (r, before) = work l in
    (
      before,
      finally_trace work (try_any (perform env.failure (remove_worktree n)) (pure tt)) l
          ∙ removal_last n before (env.failure (length before)),
    )

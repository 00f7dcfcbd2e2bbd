-- ===== src/Orchestrator/Worktree/Made.antt =====
-- What was done for a worktree that `create_worktree` returns.
use mathlib.Core.Path.{subst}
use talki_llm_admission_sche.Base.{
  ℕ, ◌≡◌, refl, ap, ◌∙◌, ◌⊎◌, inl, inr, ◌&&◌, Bool, true, false, Bool-cases, Option, none, some,
  List, ◌∷◌, ◌++◌, codes, length,
}
use talki_llm_admission_sche.Orchestrator.Text.{Text, same_text, strip}
use talki_llm_admission_sche.Orchestrator.Roles.{Role}
use talki_llm_admission_sche.Orchestrator.Worktree.{
  Command, bash, make_folder, Ran, Env, worktree_error, Outcome, ok, M, raise, or_raise,
  run_command, is_there, is_zero, or_fail, checked, Worktree, name_command, email_command,
  config_failed, hook_failed, add_failed, hook_script, configure_identity, install_hook,
  head_command, add_command, set_up, reuse, add, new_worktree, create_worktree, ◌>>=◌, ◌>>◌,
}
use talki_llm_admission_sche.Orchestrator.Worktree.Rules.{
  Relation, Ends, Yields, bind-Yields, Ends-map,
}

-- The command, with so many before it, ended with exit code 0.
abbrev pub Succeeded : Env → ℕ → Command → Type 0
Succeeded env n c = (r : Ran) × (env.run n c ≡ some r) × (is_zero r.code ≡ true)

-- It is the latest command, and succeeded.
abbrev Done : Env → Command → Relation (Unit {0})
Done env c l u k = Succeeded env (length l) c × (k ≡ c ∷ l)

module _ (env : Env) where
  abbrev RanWith : Command → Relation Ran
  RanWith c l r k = (env.run (length l) c ≡ some r) × (k ≡ c ∷ l)

  ran :
      (c : Command) (l : List Command) (o : Option Ran)
      → env.run (length l) c ≡ o
      → Ends (RanWith c l) (or_raise o) (c ∷ l)
  ran c l none h = tt
  ran c l (some r) h = (h, refl)

  run_command-Yields : (c : Command) → Yields (run_command env c) (RanWith c)
  run_command-Yields c = record { run = λ l. ran c l (env.run (length l) c) refl }

  abbrev WasZero : Ran → Relation (Unit {0})
  WasZero r l u k = (is_zero r.code ≡ true) × (k ≡ l)

  or_fail-Yields : (text : Text) (r : Ran) → Yields (or_fail text r) (WasZero r)
  or_fail-Yields text r = elim (Bool-cases (is_zero r.code)) [
    | inl e ↦ rw (e, or_fail) (record { run = λ l. (e, refl) })
    | inr e ↦ rw (e, or_fail) (record { run = λ l. tt })
  ]

  checked-Yields : (text : Text) (c : Command) → Yields (checked env text c) (Done env c)
  checked-Yields text c =
      bind-Yields (RanWith c) WasZero (Done env c) (run_command env c) (or_fail text)
        (run_command-Yields c) (or_fail-Yields text) λ l k j r u h z. ((r, h.0, z.0), z.1 ∙ h.1)

  after :
      (c : Command) (k k' : List Command)
      → k ≡ k'
      → Succeeded env (length k) c
      → Succeeded env (length k') c
  after c k k' e h = rw⁻¹ e h

  abbrev Identified : Text → Role → Relation (Unit {0})
  Identified folder role l u k =
      Succeeded env (length l) (name_command folder role)
      × Succeeded env (length (name_command folder role ∷ l)) (email_command folder role)
      × (k ≡ email_command folder role ∷ name_command folder role ∷ l)

  configure_identity-Yields :
      (folder : Text) (role : Role)
      → Yields (configure_identity env folder role) (Identified folder role)
  unfolding configure_identity
  configure_identity-Yields folder role =
      bind-Yields (Done env (name_command folder role)) (λ _. Done env (email_command folder role))
        (Identified folder role) _ _ (checked-Yields (config_failed "user.name") _)
        (λ _. checked-Yields (config_failed "user.email") (email_command folder role))
        λ l k j u v h i. (
          h.0,
          after (email_command folder role) k _ h.1 i.0,
          i.1 ∙ ap (λ p. email_command folder role ∷ p) h.1,
        )

  abbrev hook_command : Text → Command
  hook_command folder = bash (hook_script env) folder

  looked_up :
      (folder : Text) (there : Bool)
      → Yields
          (elim there as (λ _. M (Unit {0})) [
            | true ↦ checked env hook_failed (hook_command folder)
            | false ↦
                raise (worktree_error (codes "hook installer introuvable : " ++ hook_script env))
          ])
          (Done env (hook_command folder))
  looked_up folder true = checked-Yields hook_failed (hook_command folder)
  looked_up folder false = record { run = λ l. tt }

  install_hook-Yields :
      (folder : Text) → Yields (install_hook env folder) (Done env (hook_command folder))
  unfolding install_hook
  install_hook-Yields folder = record {
    run = λ l. (looked_up folder (env.exists (length l) (hook_script env))).run l;
  }

  -- The commands that set a worktree up, in order, each successful.
  abbrev SetUp : Worktree → List Command → List Command → Type 0
  SetUp wt l k =
      let before = email_command wt.path wt.role ∷ name_command wt.path wt.role ∷ l in
      Identified wt.path wt.role l tt before
      × Succeeded env (length before) (hook_command wt.path)
      × (k ≡ hook_command wt.path ∷ before)

  abbrev Equipped : Worktree → Relation Worktree
  Equipped wt l w k = (w ≡ wt) × SetUp wt l k

  set_up-Yields : (wt : Worktree) → Yields (set_up env wt) (Equipped wt)
  set_up-Yields wt =
      bind-Yields (λ l u k. SetUp wt l k) (λ _ l w k. (w ≡ wt) × (k ≡ l)) (Equipped wt) _ _
        (bind-Yields (Identified wt.path wt.role) (λ _. Done env (hook_command wt.path))
          (λ l u k. SetUp wt l k) _ _ (configure_identity-Yields wt.path wt.role)
          (λ _. install_hook-Yields wt.path)
          (λ l k j u v h i. (
            (h.0, h.1, refl),
            after (hook_command wt.path) k _ h.2 i.0,
            i.1 ∙ ap (λ p. hook_command wt.path ∷ p) h.2,
          )))
        (λ _. record { run = λ l. (refl, refl) }) λ l k j u w h i. (i.0, (h.0, h.1, i.1 ∙ h.2))

  abbrev IsOnBranch : Worktree → Ran → Type 0
  IsOnBranch wt r = (is_zero r.code && same_text (strip r.out) wt.branch) ≡ true

  -- The folder was on the branch.
  abbrev Reused : Worktree → List Command → List Command → Type 0
  Reused wt l k =
      (r : Ran) × (env.run (length l) (head_command wt.path) ≡ some r)
      × IsOnBranch wt r
      × (k ≡ head_command wt.path ∷ l)

  -- Git added the worktree.
  abbrev Added : Worktree → List Command → List Command → Type 0
  Added wt l k =
      Succeeded env (length l) (add_command env wt.branch wt.path)
      × (k ≡ add_command env wt.branch wt.path ∷ l)

  abbrev EquippedAfter :
      (Worktree → List Command → List Command → Type 0) → Worktree → Relation Worktree
  EquippedAfter how wt l w k = (w ≡ wt) × (got : List Command) × how wt l got × SetUp wt got k

  matched :
      (wt : Worktree) (b : Bool)
      → Yields
          (elim b as (λ _. M Worktree) [
            | true ↦ set_up env wt
            | false ↦
                raise (
                  worktree_error (codes "worktree path existe avec mauvaise branche : " ++ wt.path))
          ])
          (λ l w k. (b ≡ true) × Equipped wt l w k)
  matched wt true = record {
    run = λ l.
        Ends-map (Equipped wt l) (λ w k. (true ≡ true) × Equipped wt l w k) (set_up env wt l).0
          (set_up env wt l).1 (λ w k h. (refl, h)) ((set_up-Yields wt).run l);
  }
  matched wt false = record { run = λ l. tt }

  reuse-Yields : (wt : Worktree) → Yields (reuse env wt) (EquippedAfter Reused wt)
  reuse-Yields wt =
      bind-Yields (RanWith (head_command wt.path)) (λ r l w k. IsOnBranch wt r × Equipped wt l w k)
        (EquippedAfter Reused wt) _ _ (run_command-Yields (head_command wt.path))
        (λ r. matched wt (is_zero r.code && same_text (strip r.out) wt.branch))
        λ l k j r w g h. (h.1.0, k, (r, g.0, h.0, g.1), h.1.1)

  add-Yields : (wt : Worktree) → Yields (add env wt) (EquippedAfter Added wt)
  add-Yields wt =
      bind-Yields (Done env (add_command env wt.branch wt.path)) (λ _. Equipped wt)
        (EquippedAfter Added wt) _ _ (checked-Yields add_failed _) (λ _. set_up-Yields wt)
        λ l k j u w g h. (h.0, k, g, h.1)

  -- The folder was there and on the branch, or was not there and git added the worktree.
  abbrev Obtained : Worktree → List Command → List Command → Type 0
  Obtained wt l k =
      ((env.exists (length l) wt.path ≡ true) × Reused wt l k)
      ⊎ ((env.exists (length l) wt.path ≡ false) × Added wt l k)

  obtained :
      (wt : Worktree) (there : Bool) (l : List Command)
      → env.exists (length l) wt.path ≡ there
      → let m : M Worktree = elim there [ true ↦ reuse env wt | false ↦ add env wt ] in
        Ends (EquippedAfter Obtained wt l) (m l).0 (m l).1
  obtained wt true l h =
      Ends-map (EquippedAfter Reused wt l) (EquippedAfter Obtained wt l) (reuse env wt l).0
        (reuse env wt l).1 (λ w k g. (g.0, g.1, inl (h, g.2), g.3)) ((reuse-Yields wt).run l)
  obtained wt false l h =
      Ends-map (EquippedAfter Added wt l) (EquippedAfter Obtained wt l) (add env wt l).0
        (add env wt l).1 (λ w k g. (g.0, g.1, inr (h, g.2), g.3)) ((add-Yields wt).run l)

  -- All that was run, in order, from the making of the folder of the worktrees.
  abbrev pub Made : Worktree → List Command → List Command → Type 0
  Made wt l k =
      (got : List Command) × Obtained wt (make_folder env.worktrees_root ∷ l) got × SetUp wt got k

  ended :
      {A : Type 0} (r : A → List Command → Type 0) (rest : Outcome A × List Command) (a : A)
      (k : List Command)
      → rest ≡ (ok a, k)
      → Ends r rest.0 rest.1
      → r a k
  ended r rest a k e h = subst (λ x. Ends r x.0 x.1) e h

  found :
      (role : Role) (issue_id : ℕ) (title : Text) (l : List Command) (o : Option Ran)
      → let wt = new_worktree env role issue_id title in
        let made : M Ran = λ _. (or_raise o, l) in
        let m : M Worktree = made >> is_there env wt.path >>= λ there. elim there [
          | true ↦ reuse env wt
          | false ↦ add env wt
        ] in
        let rest : Outcome Worktree × List Command = m l in
        Ends (EquippedAfter Obtained wt l) rest.0 rest.1
  found role issue_id title l none = tt
  found role issue_id title l (some r) =
      let wt = new_worktree env role issue_id title in
      obtained wt (env.exists (length l) wt.path) l refl

  -- Where `create_worktree` returns, the worktree is that of the issue's folder and branch; the folder was there and on
  -- that branch, or was not there and git added it; and then the name, the address and the hook of the role were set
  -- in it, each command with success, and nothing else was run.
  pub create_worktree-Made :
      (role : Role) (issue_id : ℕ) (title : Text) (l : List Command) (w : Worktree)
      (k : List Command)
      → create_worktree env role issue_id title l ≡ (ok w, k)
      → (w ≡ new_worktree env role issue_id title) × Made (new_worktree env role issue_id title) l k
  unfolding create_worktree
  create_worktree-Made role issue_id title l w k e =
      let wt = new_worktree env role issue_id title in
      let start = make_folder env.worktrees_root in
      let h =
        ended (EquippedAfter Obtained wt (start ∷ l)) _ w k e
          (found role issue_id title (start ∷ l) (env.run (length l) start)) in
      (h.0, (h.1, h.2, h.3))

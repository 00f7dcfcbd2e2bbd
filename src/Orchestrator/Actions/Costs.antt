-- ===== src/Orchestrator/Actions/Costs.antt =====
-- How many calls of the language model a coroutine makes at most, and how many tokens it reserves.
use talki_llm_admission_sche.Base.{
  ℕ, ◌+◌, ◌*◌, ◌≤◌, Bool, true, false, Option, none, some, List, [], ◌∷◌, arith,
}
use talki_llm_admission_sche.Orchestrator.Text.{Text}
use talki_llm_admission_sche.Orchestrator.Actions.{
  Action, ask_llm, reserve_tokens, github_error, worktree_error, other_error, Failure, Result, ok,
  failed, M, pure, raise, perform, observe, catch_github, try_github, catch_worktree, try_worktree,
  try_any, finally, ◌>>=◌,
}
use talki_llm_admission_sche.Orchestrator.Actions.Rules.{finally_trace}

-- What an action costs: each call so much, and each token that is reserved so much.
abbrev pub cost : ℕ → ℕ → Action → ℕ
cost call token ask_llm = call
cost call token (reserve_tokens n) = token * n
cost call token _ = 0

abbrev pub total : ℕ → ℕ → List Action → ℕ
total call token [] = 0
total call token (a ∷ l) = cost call token a + total call token l

module _ (call token : ℕ) where
  -- The coroutine costs at most so much.
  pub record Costs (n : ℕ) {A : Type 0} (m : M A) : Type 0 where
    pub run : (l : List Action) → total call token (m l).1 ≤ total call token l + n

  pub pure-Costs : {A : Type 0} (n : ℕ) (a : A) → Costs n (pure a)
  pure-Costs n a = record { run = λ l. omega arith }

  pub raise-Costs : {A : Type 0} (n : ℕ) (e : Failure) → Costs n (raise {A = A} e)
  raise-Costs n e = record { run = λ l. omega arith }

  pub observe-Costs : {A : Type 0} (f : ℕ → A) → Costs 0 (observe f)
  observe-Costs f = record { run = λ l. omega arith }

  pub perform-Costs :
      (failure : ℕ → Option Failure) (a : Action) (n : ℕ)
      → cost call token a ≤ n
      → Costs n (perform failure a)
  perform-Costs failure a n h = record { run = λ l. omega (arith, h) }

  bound :
      {A B : Type 0} (f : A → M B) (r : Result A) (k l : List Action) (i j : ℕ)
      → ((a : A) → Costs j (f a))
      → total call token k ≤ total call token l + i
      → total call token
          (elim r as (λ _. Result B × List Action) [ ok a ↦ f a k | failed e ↦ (failed e, k) ]).1
        ≤ total call token l + (i + j)
  bound f (ok a) k l i j hf h = omega (arith, (hf a).run k, h)
  bound f (failed e) k l i j hf h = omega (arith, h)

  pub bind-Costs :
      {A B : Type 0} {m : M A} {f : A → M B} (i j : ℕ)
      → Costs i m
      → ((a : A) → Costs j (f a))
      → Costs (i + j) (m >>= f)
  bind-Costs {m = m} {f = f} i j hm hf = record {
    run = λ l. bound f (m l).0 (m l).1 l i j hf (hm.run l);
  }

  pub at_most : {A : Type 0} {m : M A} (i n : ℕ) → i ≤ n → Costs i m → Costs n m
  at_most i n h hm = record { run = λ l. omega (arith, hm.run l, h) }

  -- A part that costs nothing stands before or after the rest.
  pub free_then :
      {A B : Type 0} {m : M A} {f : A → M B} (n : ℕ)
      → Costs 0 m
      → ((a : A) → Costs n (f a))
      → Costs n (m >>= f)
  free_then n hm hf = at_most (0 + n) n (omega arith) (bind-Costs 0 n hm hf)

  pub then_free :
      {A B : Type 0} {m : M A} {f : A → M B} (n : ℕ)
      → Costs n m
      → ((a : A) → Costs 0 (f a))
      → Costs n (m >>= f)
  then_free n hm hf = at_most (n + 0) n (omega arith) (bind-Costs n 0 hm hf)

  pub branch-Costs :
      {A : Type 0} {m k : M A} (n : ℕ) (b : Bool)
      → Costs n m
      → Costs n k
      → Costs n (elim b [ true ↦ m | false ↦ k ])
  branch-Costs n true hm hk = hm
  branch-Costs n false hm hk = hk

  pub option-Costs :
      {A B : Type 0} {m : M A} {f : B → M A} (n : ℕ) (o : Option B)
      → Costs n m
      → ((b : B) → Costs n (f b))
      → Costs n (elim o [ none ↦ m | some b ↦ f b ])
  option-Costs n none hm hf = hm
  option-Costs n (some b) hm hf = hf b

  caught :
      {A : Type 0} (handler : Text → M A) (r : Result A) (k l : List Action) (n : ℕ)
      → ((t : Text) → Costs 0 (handler t))
      → total call token k ≤ total call token l + n
      → total call token
          (elim r as (λ _. Result A × List Action) [
            | ok a ↦ (ok a, k)
            | failed e ↦ catch_github handler e k
          ]).1
        ≤ total call token l + n
  caught handler (ok a) k l n hh h = h
  caught handler (failed (github_error t)) k l n hh h = omega (arith, (hh t).run k, h)
  caught handler (failed worktree_error) k l n hh h = h
  caught handler (failed other_error) k l n hh h = h

  pub try_github-Costs :
      {A : Type 0} {m : M A} {handler : Text → M A} (n : ℕ)
      → Costs n m
      → ((t : Text) → Costs 0 (handler t))
      → Costs n (try_github m handler)
  try_github-Costs {m = m} {handler = handler} n hm hh = record {
    run = λ l. caught handler (m l).0 (m l).1 l n hh (hm.run l);
  }

  caught_worktree :
      {A : Type 0} (handler : M A) (r : Result A) (k l : List Action) (n : ℕ)
      → Costs 0 handler
      → total call token k ≤ total call token l + n
      → total call token
          (elim r as (λ _. Result A × List Action) [
            | ok a ↦ (ok a, k)
            | failed e ↦ catch_worktree handler e k
          ]).1
        ≤ total call token l + n
  caught_worktree handler (ok a) k l n hh h = h
  caught_worktree handler (failed (github_error t)) k l n hh h = h
  caught_worktree handler (failed worktree_error) k l n hh h = omega (arith, hh.run k, h)
  caught_worktree handler (failed other_error) k l n hh h = h

  pub try_worktree-Costs :
      {A : Type 0} {m handler : M A} (n : ℕ)
      → Costs n m
      → Costs 0 handler
      → Costs n (try_worktree m handler)
  try_worktree-Costs {m = m} {handler = handler} n hm hh = record {
    run = λ l. caught_worktree handler (m l).0 (m l).1 l n hh (hm.run l);
  }

  caught_any :
      {A : Type 0} (handler : M A) (r : Result A) (k l : List Action) (n : ℕ)
      → Costs 0 handler
      → total call token k ≤ total call token l + n
      → total call token
          (elim r as (λ _. Result A × List Action) [ ok a ↦ (ok a, k) | failed e ↦ handler k ]).1
        ≤ total call token l + n
  caught_any handler (ok a) k l n hh h = h
  caught_any handler (failed e) k l n hh h = omega (arith, hh.run k, h)

  pub try_any-Costs :
      {A : Type 0} {m handler : M A} (n : ℕ)
      → Costs n m
      → Costs 0 handler
      → Costs n (try_any m handler)
  try_any-Costs {m = m} {handler = handler} n hm hh = record {
    run = λ l. caught_any handler (m l).0 (m l).1 l n hh (hm.run l);
  }

  pub finally-Costs :
      {A : Type 0} {m : M A} {k : M (Unit {0})} (n : ℕ)
      → Costs n m
      → Costs 0 k
      → Costs n (finally m k)
  finally-Costs {m = m} {k = k} n hm hk = record {
    run = λ l. rw (finally_trace m k l) (omega (arith, hk.run (m l).1, hm.run l));
  }

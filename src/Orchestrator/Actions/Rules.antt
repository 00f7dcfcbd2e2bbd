-- ===== src/Orchestrator/Actions/Rules.antt =====
-- What is true of every action that a coroutine performs.
use talki_llm_admission_sche.Base.{ℕ, ◌≡◌, refl, Bool, true, false, Option, none, some, List, All}
use talki_llm_admission_sche.Orchestrator.Text.{Text}
use talki_llm_admission_sche.Orchestrator.Actions.{
  Action, Failure, github_error, worktree_error, other_error, Result, ok, failed, M, pure, raise,
  perform, catch_github, try_github, catch_worktree, try_worktree, finally, observe, try_any, ◌>>=◌,
  ◌>>◌,
}

-- If all actions so far have the property, then so have all after the coroutine.
pub record Only (Q : Action → Type 0) {A : Type 0} (m : M A) : Type 0 where
  pub run : (l : List Action) → All Q l → All Q (m l).1

finished :
    {A : Type 0} (r : Result A) (s : Result (Unit {0})) (k : List Action)
    → (elim s as (λ _. Result A × List Action) [ ok _ ↦ (r, k) | failed e ↦ (failed e, k) ]).1 ≡ k
finished r (ok _) k = refl
finished r (failed e) k = refl

-- The actions of `finally` end with those of its second block.
pub finally_trace :
    {A : Type 0} (m : M A) (k : M (Unit {0})) (l : List Action) → (finally m k l).1 ≡ (k (m l).1).1
finally_trace m k l = finished (m l).0 (k (m l).1).0 (k (m l).1).1

module _ {Q : Action → Type 0} where
  pub pure-Only : {A : Type 0} (a : A) → Only Q (pure a)
  pure-Only a = record { run = λ l h. h }

  pub raise-Only : {A : Type 0} (e : Failure) → Only Q (raise {A = A} e)
  raise-Only e = record { run = λ l h. h }

  bound :
      {A B : Type 0} (f : A → M B) (r : Result A) (k : List Action)
      → ((a : A) → Only Q (f a))
      → All Q k
      → All Q
          (elim r as (λ _. Result B × List Action) [ ok a ↦ f a k | failed e ↦ (failed e, k) ]).1
  bound f (ok a) k hf h = (hf a).run k h
  bound f (failed e) k hf h = h

  pub bind-Only :
      {A B : Type 0} {m : M A} {f : A → M B}
      → Only Q m
      → ((a : A) → Only Q (f a))
      → Only Q (m >>= f)
  bind-Only {m = m} {f = f} hm hf = record { run = λ l h. bound f (m l).0 (m l).1 hf (hm.run l h) }

  pub then-Only : {A B : Type 0} {m : M A} {k : M B} → Only Q m → Only Q k → Only Q (m >> k)
  then-Only hm hk = bind-Only hm (λ _. hk)

  pub perform-Only : (failure : ℕ → Option Failure) (a : Action) → Q a → Only Q (perform failure a)
  perform-Only failure a q = record { run = λ l h. (q, h) }

  caught :
      {A : Type 0} (handler : Text → M A) (r : Result A) (k : List Action)
      → ((t : Text) → Only Q (handler t))
      → All Q k
      → All Q
          (elim r as (λ _. Result A × List Action) [
            | ok a ↦ (ok a, k)
            | failed e ↦ catch_github handler e k
          ]).1
  caught handler (ok a) k hh h = h
  caught handler (failed (github_error t)) k hh h = (hh t).run k h
  caught handler (failed worktree_error) k hh h = h
  caught handler (failed other_error) k hh h = h

  pub try_github-Only :
      {A : Type 0} {m : M A} {handler : Text → M A}
      → Only Q m
      → ((t : Text) → Only Q (handler t))
      → Only Q (try_github m handler)
  try_github-Only {m = m} {handler = handler} hm hh = record {
    run = λ l h. caught handler (m l).0 (m l).1 hh (hm.run l h);
  }

  caught_worktree :
      {A : Type 0} (handler : M A) (r : Result A) (k : List Action)
      → Only Q handler
      → All Q k
      → All Q
          (elim r as (λ _. Result A × List Action) [
            | ok a ↦ (ok a, k)
            | failed e ↦ catch_worktree handler e k
          ]).1
  caught_worktree handler (ok a) k hh h = h
  caught_worktree handler (failed (github_error t)) k hh h = h
  caught_worktree handler (failed worktree_error) k hh h = hh.run k h
  caught_worktree handler (failed other_error) k hh h = h

  pub try_worktree-Only :
      {A : Type 0} {m handler : M A} → Only Q m → Only Q handler → Only Q (try_worktree m handler)
  try_worktree-Only {m = m} {handler = handler} hm hh = record {
    run = λ l h. caught_worktree handler (m l).0 (m l).1 hh (hm.run l h);
  }

  pub finally-Only :
      {A : Type 0} {m : M A} {k : M (Unit {0})} → Only Q m → Only Q k → Only Q (finally m k)
  finally-Only {m = m} {k = k} hm hk = record {
    run = λ l h. rw (finally_trace m k l) (hk.run (m l).1 (hm.run l h));
  }

  pub observe-Only : {A : Type 0} (f : ℕ → A) → Only Q (observe f)
  observe-Only f = record { run = λ l h. h }

  caught_any :
      {A : Type 0} (handler : M A) (r : Result A) (k : List Action)
      → Only Q handler
      → All Q k
      → All Q
          (elim r as (λ _. Result A × List Action) [ ok a ↦ (ok a, k) | failed e ↦ handler k ]).1
  caught_any handler (ok a) k hh h = h
  caught_any handler (failed e) k hh h = hh.run k h

  pub try_any-Only :
      {A : Type 0} {m handler : M A} → Only Q m → Only Q handler → Only Q (try_any m handler)
  try_any-Only {m = m} {handler = handler} hm hh = record {
    run = λ l h. caught_any handler (m l).0 (m l).1 hh (hm.run l h);
  }

  pub branch-Only :
      {A : Type 0} {m k : M A} (b : Bool)
      → Only Q m
      → Only Q k
      → Only Q (elim b [ true ↦ m | false ↦ k ])
  branch-Only true hm hk = hm
  branch-Only false hm hk = hk

  -- Each branch may use what the test says.
  pub split-Only :
      {A : Type 0} {m k : M A} (b : Bool)
      → (b ≡ true → Only Q m)
      → (b ≡ false → Only Q k)
      → Only Q (elim b [ true ↦ m | false ↦ k ])
  split-Only true hm hk = hm refl
  split-Only false hm hk = hk refl

  pub option-Only :
      {A B : Type 0} {m : M A} {f : B → M A} (o : Option B)
      → Only Q m
      → ((b : B) → Only Q (f b))
      → Only Q (elim o [ none ↦ m | some b ↦ f b ])
  option-Only none hm hf = hm
  option-Only (some b) hm hf = hf b

pub ruleset only = (
  pure-Only, raise-Only, bind-Only, then-Only, perform-Only, try_github-Only, try_any-Only,
  try_worktree-Only, finally-Only, observe-Only,
)

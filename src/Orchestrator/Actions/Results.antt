-- ===== src/Orchestrator/Actions/Results.antt =====
-- What is true of every action that a coroutine performs and of what it returns.
use talki_llm_admission_sche.Base.{List, All}
use talki_llm_admission_sche.Orchestrator.Text.{Text}
use talki_llm_admission_sche.Orchestrator.Actions.{
  Action, github_error, worktree_error, other_error, Result, ok, failed, M, pure, catch_github,
  try_github, try_any, ◌>>=◌, ◌>>◌,
}
use talki_llm_admission_sche.Orchestrator.Actions.Rules.{Only}

abbrev pub Holds : {A : Type 0} → (A → Type 0) → Result A → Type 0
Holds R (ok a) = R a
Holds R (failed e) = Unit

-- The coroutine keeps the property of the actions and returns, if it does, a value with the other.
pub record Gives (Q : Action → Type 0) {A : Type 0} (R : A → Type 0) (m : M A) : Type 0 where
  pub run : (l : List Action) → All Q l → All Q (m l).1 × Holds R (m l).0

module _ {Q : Action → Type 0} {A : Type 0} {R : A → Type 0} where
  pub pure-Gives : (a : A) → R a → Gives Q R (pure a)
  pure-Gives a r = record { run = λ l h. (h, r) }

  gives_then :
      {B : Type 0} (k : M A) (r : Result B) (l : List Action)
      → Gives Q R k
      → All Q l
      → let rest : Result A × List Action = elim r [ ok a ↦ k l | failed e ↦ (failed e, l) ] in
        All Q rest.1 × Holds R rest.0
  gives_then k (ok a) l hk h = hk.run l h
  gives_then k (failed e) l hk h = (h, tt)

  pub then-Gives : {B : Type 0} {m : M B} {k : M A} → Only Q m → Gives Q R k → Gives Q R (m >> k)
  then-Gives {m = m} {k = k} hm hk = record {
    run = λ l h. gives_then k (m l).0 (m l).1 hk (hm.run l h);
  }

  gives_caught :
      (handler : Text → M A) (r : Result A) (l : List Action)
      → ((t : Text) → Gives Q R (handler t))
      → All Q l × Holds R r
      → let rest : Result A × List Action = elim r [
        | ok a ↦ (ok a, l)
        | failed e ↦ catch_github handler e l
      ] in
        All Q rest.1 × Holds R rest.0
  gives_caught handler (ok a) l hh h = h
  gives_caught handler (failed (github_error t)) l hh h = (hh t).run l h.0
  gives_caught handler (failed worktree_error) l hh h = h
  gives_caught handler (failed other_error) l hh h = h

  pub try_github-Gives :
      {m : M A} {handler : Text → M A}
      → Gives Q R m
      → ((t : Text) → Gives Q R (handler t))
      → Gives Q R (try_github m handler)
  try_github-Gives {m = m} {handler = handler} hm hh = record {
    run = λ l h. gives_caught handler (m l).0 (m l).1 hh (hm.run l h);
  }

  gives_caught_any :
      (handler : M A) (r : Result A) (l : List Action)
      → Gives Q R handler
      → All Q l × Holds R r
      → let rest : Result A × List Action = elim r [ ok a ↦ (ok a, l) | failed e ↦ handler l ] in
        All Q rest.1 × Holds R rest.0
  gives_caught_any handler (ok a) l hh h = h
  gives_caught_any handler (failed e) l hh h = hh.run l h.0

  pub try_any-Gives :
      {m handler : M A} → Gives Q R m → Gives Q R handler → Gives Q R (try_any m handler)
  try_any-Gives {m = m} {handler = handler} hm hh = record {
    run = λ l h. gives_caught_any handler (m l).0 (m l).1 hh (hm.run l h);
  }

  gives_bound :
      {B : Type 0} (f : A → M B) (r : Result A) (l : List Action)
      → ((a : A) → R a → Only Q (f a))
      → All Q l × Holds R r
      → let rest : Result B × List Action = elim r [ ok a ↦ f a l | failed e ↦ (failed e, l) ] in
        All Q rest.1
  gives_bound f (ok a) l hf h = (hf a h.1).run l h.0
  gives_bound f (failed e) l hf h = h.0

  -- What follows may use what the value is known to be.
  pub bind-Gives :
      {B : Type 0} {m : M A} {f : A → M B}
      → Gives Q R m
      → ((a : A) → R a → Only Q (f a))
      → Only Q (m >>= f)
  bind-Gives {m = m} {f = f} hm hf = record {
    run = λ l h. gives_bound f (m l).0 (m l).1 hf (hm.run l h);
  }

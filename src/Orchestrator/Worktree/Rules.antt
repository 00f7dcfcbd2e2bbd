-- ===== src/Orchestrator/Worktree/Rules.antt =====
-- What holds of the commands of a method where it returns a value.
use talki_llm_admission_sche.Base.{List}
use talki_llm_admission_sche.Orchestrator.Worktree.{
  Command, Outcome, ok, failed, M, continue, ◌>>=◌,
}

abbrev pub Relation : Type 0 → Type 1
Relation A = List Command → A → List Command → Type 0

abbrev pub Ends : {A : Type 0} → (A → List Command → Type 0) → Outcome A → List Command → Type 0
Ends post (ok a) k = post a k
Ends post (failed e) k = Unit

-- Where the method returns a value, this holds of the commands before, the value and the commands after.
pub record Yields {A : Type 0} (m : M A) (rel : Relation A) : Type 0 where
  pub run : (l : List Command) → Ends (rel l) (m l).0 (m l).1

pub Ends-map :
    {A : Type 0} (r r' : A → List Command → Type 0) (o : Outcome A) (k : List Command)
    → ((a : A) (k : List Command) → r a k → r' a k)
    → Ends r o k
    → Ends r' o k
Ends-map r r' (ok a) k f h = f a k h
Ends-map r r' (failed e) k f h = tt

module _ {A B : Type 0} (r1 : Relation A) (r2 : A → Relation B) (r3 : Relation B) where
  continued :
      (f : A → M B) (l : List Command) (r : Outcome A) (k : List Command)
      → ((a : A) → Yields (f a) (r2 a))
      → ((l k j : List Command) (a : A) (b : B) → r1 l a k → r2 a k b j → r3 l b j)
      → Ends (r1 l) r k
      → Ends (r3 l) (continue f r k).0 (continue f r k).1
  continued f l (ok a) k hf step h =
      Ends-map (r2 a k) (r3 l) (f a k).0 (f a k).1 (λ b j. step l k j a b h) ((hf a).run k)
  continued f l (failed e) k hf step h = tt

  pub bind-Yields :
      (m : M A) (f : A → M B)
      → Yields m r1
      → ((a : A) → Yields (f a) (r2 a))
      → ((l k j : List Command) (a : A) (b : B) → r1 l a k → r2 a k b j → r3 l b j)
      → Yields (m >>= f) r3
  bind-Yields m f hm hf step = record {
    run = λ l. continued f l (m l).0 (m l).1 hf step (hm.run l);
  }

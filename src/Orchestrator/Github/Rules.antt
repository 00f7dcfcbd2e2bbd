-- ===== src/Orchestrator/Github/Rules.antt =====
-- What a method of the client keeps, and what it ends with.
use talki_llm_admission_sche.Base.{◌≡◌, refl, Bool, true, false, Option, none, some}
use talki_llm_admission_sche.Orchestrator.Github.{
  Client, Failure, other_error, Outcome, ok, failed, M, pure, raise, continue, or_raise, attempt,
  ◌>>=◌,
}

abbrev pub Ends : {A : Type 0} → (A → Client → Type 0) → Outcome A → Client → Type 0
Ends post (ok a) c = post a c
Ends post (failed e) c = Unit

-- From a client with `inv` and `pre` the method keeps `inv`, and where it returns a value, `post` holds of it.
pub record Hoare (inv : Client → Type 0) {A : Type 0} (pre : Client → Type 0) (m : M A)
    (post : A → Client → Type 0) : Type 0 where
  pub run : (c : Client) → inv c → pre c → inv (m c).1 × Ends post (m c).0 (m c).1

module _ {inv : Client → Type 0} {A : Type 0} where
  pub pure-Hoare :
      {pre : Client → Type 0} {post : A → Client → Type 0} (a : A)
      → ((c : Client) → pre c → post a c)
      → Hoare inv pre (pure a) post
  pure-Hoare a h = record { run = λ c i p. (i, h c p) }

  pub raise-Hoare :
      {pre : Client → Type 0} {post : A → Client → Type 0} (e : Failure)
      → Hoare inv pre (raise e) post
  raise-Hoare e = record { run = λ c i p. (i, tt) }

  -- A value that is there, with what holds before.
  pub or_raise-Hoare :
      {pre : Client → Type 0} (o : Option A)
      → Hoare inv pre (or_raise o) (λ a c. (o ≡ some a) × pre c)
  or_raise-Hoare none = raise-Hoare other_error
  or_raise-Hoare (some a) = pure-Hoare a (λ c p. (refl, p))

  pub branch-Hoare :
      {pre : Client → Type 0} {post : A → Client → Type 0} {m k : M A} (b : Bool)
      → (b ≡ true → Hoare inv pre m post)
      → (b ≡ false → Hoare inv pre k post)
      → Hoare inv pre (elim b [ true ↦ m | false ↦ k ]) post
  branch-Hoare true hm hk = hm refl
  branch-Hoare false hm hk = hk refl

  pub weaken :
      {pre pre' : Client → Type 0} {post : A → Client → Type 0} {m : M A}
      → Hoare inv pre m post
      → ((c : Client) → inv c → pre' c → pre c)
      → Hoare inv pre' m post
  weaken h w = record { run = λ c i p. h.run c i (w c i p) }

  after :
      {B : Type 0} {mid : A → Client → Type 0} {post : B → Client → Type 0} (f : A → M B)
      (r : Outcome A) (d : Client)
      → ((a : A) → Hoare inv (mid a) (f a) post)
      → inv d
      → Ends mid r d
      → let rest : Outcome B × Client = continue r (λ a. f a d) (λ e. (failed e, d)) in
        inv rest.1 × Ends post rest.0 rest.1
  after f (ok a) d hf i h = (hf a).run d i h
  after f (failed e) d hf i h = (i, tt)

  pub bind-Hoare :
      {B : Type 0} {pre : Client → Type 0} {mid : A → Client → Type 0} {post : B → Client → Type 0}
      {m : M A} {f : A → M B}
      → Hoare inv pre m mid
      → ((a : A) → Hoare inv (mid a) (f a) post)
      → Hoare inv pre (m >>= f) post
  bind-Hoare {m = m} {f = f} hm hf = record {
    run = λ c i p. after f (m c).0 (m c).1 hf (hm.run c i p).0 (hm.run c i p).1;
  }

abbrev pub Anything : Client → Type 0
Anything c = Unit

-- The method keeps the invariant.
abbrev pub Keeps : (Client → Type 0) → {A : Type 0} → M A → Type 0
Keeps inv m = Hoare inv Anything m (λ _. Anything)

module _ {inv : Client → Type 0} {A : Type 0} where
  pub or_raise-Keeps : (o : Option A) → Keeps inv (or_raise o)
  or_raise-Keeps none = raise-Hoare other_error
  or_raise-Keeps (some a) = pure-Hoare a (λ c p. tt)

  pub after-Keeps :
      {B : Type 0} {m : M A} {f : A → M B}
      → Keeps inv m
      → ((a : A) → Keeps inv (f a))
      → Keeps inv (m >>= f)
  after-Keeps hm hf = bind-Hoare hm hf

  handled :
      (h : Failure → M A) (r : Outcome A) (d : Client)
      → ((e : Failure) → Keeps inv (h e))
      → inv d
      → let rest : Outcome A × Client = continue r (λ a. (ok a, d)) (λ e. h e d) in
        inv rest.1 × Ends (λ _. Anything) rest.0 rest.1
  handled h (ok a) d hh i = (i, tt)
  handled h (failed e) d hh i = (hh e).run d i tt

  pub attempt-Keeps :
      {m : M A} {h : Failure → M A}
      → Keeps inv m
      → ((e : Failure) → Keeps inv (h e))
      → Keeps inv (attempt m h)
  attempt-Keeps {m = m} {h = h} hm hh = record {
    run = λ c i p. handled h (m c).0 (m c).1 hh (hm.run c i p).0;
  }

-- ===== src/Redis/Ensures.antt =====
-- The same with what is known of the value that a coroutine returns.
use talki_llm_admission_sche.Base.{Bool-cases, inl, inr, Option, none, some}
use talki_llm_admission_sche.Redis.Data.{Keyspace}
use talki_llm_admission_sche.Redis.Commands.{Command, Reply, answer, effect}
use talki_llm_admission_sche.Redis.Client.{
  Env, World, M, Outcome, ok, raised, redis_error, cancelled_error, validation_error, value_error,
  http_exception, execute, ◌>>=◌, pure, try_redis, catch_redis,
}
use talki_llm_admission_sche.Redis.Keeps.{Keeps, OthersKeep, on_documented}

-- What a value that is returned satisfies; an exception returns none.
abbrev pub Returned : {A : Type 0} → (A → Type 0) → Outcome A → Type 0
Returned Q (ok a) = Q a
Returned Q (raised e) = Unit

-- The coroutine keeps P and returns values in Q.
pub record Ensures (P : Keyspace → Type 0) {A : Type 0} (Q : A → Type 0) (m : M A) : Type 0 where
  pub run : (w : World) → P w.keys → P (m w).1.keys × Returned Q (m w).0

module _ {P : Keyspace → Type 0} where
  ensured_at :
      {A B : Type 0} {Q : A → Type 0} (f : A → M B) (r : Outcome A) (v : World)
      → ((a : A) → Q a → Keeps P (f a))
      → P v.keys × Returned Q r
      → P (elim r as (λ _. Outcome B × World) [ ok a ↦ f a v | raised e ↦ (raised e, v) ]).1.keys
  ensured_at f (ok a) v hf h = (hf a h.1).run v h.0
  ensured_at f (raised e) v hf h = h.0

  -- What follows may use what is known of the value.
  pub bind-Ensures :
      {A B : Type 0} {Q : A → Type 0} {m : M A} {f : A → M B}
      → Ensures P Q m
      → ((a : A) → Q a → Keeps P (f a))
      → Keeps P (m >>= f)
  bind-Ensures {m = m} {f = f} hm hf = record {
    run = λ w h. ensured_at f (m w).0 (m w).1 hf (hm.run w h);
  }

  -- A command's answer, from the data that it finds.
  pub execute-Ensures :
      (env : Env) (c : Command) (Q : Reply c → Type 0)
      → OthersKeep P env
      → ((s : Keyspace) → P s → P (effect c s))
      → ((s : Keyspace) → P s → Q (answer c s))
      → Ensures P Q (execute (on_documented env) c)
  execute-Ensures env c Q others he ha = record { run = go }
    where
      go :
          (w : World)
          → P w.keys
          → P (execute (on_documented env) c w).1.keys
            × Returned Q (execute (on_documented env) c w).0
      go w p = elim (Bool-cases (env.down w.step)) [
        | inl e ↦ rw e (others w.step w.keys p, tt)
        | inr e ↦ rw e (
          he (env.others w.step w.keys) (others w.step w.keys p),
          ha (env.others w.step w.keys) (others w.step w.keys p),
        )
      ]

  pub pure-Ensures : {A : Type 0} {Q : A → Type 0} (a : A) → Q a → Ensures P Q (pure a)
  pure-Ensures a q = record { run = λ w h. (h, q) }

  chained_at :
      {A B : Type 0} {Q : A → Type 0} {R : B → Type 0} (f : A → M B) (r : Outcome A) (v : World)
      → ((a : A) → Q a → Ensures P R (f a))
      → P v.keys × Returned Q r
      → let (o, u) = elim r as (λ _. Outcome B × World) [
        | ok a ↦ f a v
        | raised e ↦ (raised e, v)
      ] in
        P u.keys × Returned R o
  chained_at f (ok a) v hf h = (hf a h.1).run v h.0
  chained_at f (raised e) v hf h = (h.0, tt)

  pub chain-Ensures :
      {A B : Type 0} {Q : A → Type 0} {R : B → Type 0} {m : M A} {f : A → M B}
      → Ensures P Q m
      → ((a : A) → Q a → Ensures P R (f a))
      → Ensures P R (m >>= f)
  chain-Ensures {m = m} {f = f} hm hf = record {
    run = λ w h. chained_at f (m w).0 (m w).1 hf (hm.run w h);
  }

  pub any-Ensures : {A : Type 0} {m : M A} → Keeps P m → Ensures P (λ _. Unit {0}) m
  any-Ensures {m = m} h = record { run = λ w p. (h.run w p, any (m w).0) }
    where
      any : {A : Type 0} (r : Outcome A) → Returned (λ _. Unit {0}) r
      any (ok a) = tt
      any (raised e) = tt

  caught_at :
      {A : Type 0} {Q : A → Type 0} {handler : M A} (r : Outcome A) (v : World)
      → Ensures P Q handler
      → P v.keys × Returned Q r
      → let (o, u) = elim r as (λ _. Outcome A × World) [
        | ok a ↦ (ok a, v)
        | raised e ↦ catch_redis e handler v
      ] in
        P u.keys × Returned Q o
  caught_at (ok a) v hh h = h
  caught_at (raised redis_error) v hh h = hh.run v h.0
  caught_at (raised validation_error) v hh h = h
  caught_at (raised cancelled_error) v hh h = h
  caught_at (raised value_error) v hh h = h
  caught_at (raised (http_exception n t)) v hh h = h

  pub try-Ensures :
      {A : Type 0} {Q : A → Type 0} {m handler : M A}
      → Ensures P Q m
      → Ensures P Q handler
      → Ensures P Q (try_redis m handler)
  try-Ensures {m = m} hm hh = record { run = λ w h. caught_at (m w).0 (m w).1 hh (hm.run w h) }

-- A condition on a value that may be missing.
abbrev pub IfSome : {A : Type 0} → (A → Type 0) → Option A → Type 0
IfSome Q none = Unit
IfSome Q (some a) = Q a

-- ===== src/Redis/Keeps.antt =====
-- Invariants of the data under faults and interference: what a coroutine keeps, command by command,
-- if the other clients keep it too.
use talki_llm_admission_sche.Base.{
  ℕ, ◌≡◌, sym, refl, arith, Bool-cases, inl, inr, Bool, true, false, Option, none, some, List,
}
use talki_llm_admission_sche.Redis.Data.{Keyspace}
use talki_llm_admission_sche.Redis.Commands.{
  Command, Server, documented, effect, IsRedis, IsRedis-eq,
}
use talki_llm_admission_sche.Redis.Client.{
  Env, World, M, Outcome, ok, raised, Error, redis_error, cancelled_error, validation_error,
  value_error, http_exception, Trace, pure, raise, ◌>>=◌, ◌>>◌, try_redis, try_any, finally, trace,
  request, answered, execute, pipeline, run_all, Script, evalsha, evaluated, iso_now, time_ns,
  catch_redis, catch_any,
}

-- The other clients keep P before every command.
abbrev pub OthersKeep : (Keyspace → Type 0) → Env → Type 0
OthersKeep P env = (n : ℕ) (s : Keyspace) → P s → P (env.others n s)

-- The coroutine ends with P whenever it begins with P.
pub record Keeps (P : Keyspace → Type 0) {A : Type 0} (m : M A) : Type 0 where
  pub run : (w : World) → P w.keys → P (m w).1.keys

-- The same surroundings with a server that does as documented.
abbrev pub on_documented : Env → Env
on_documented env = record env { srv = documented }

pub env_path : {env : Env} → IsRedis env.srv → on_documented env ≡ env
env_path {env} h = λ i. record env { srv = sym (IsRedis-eq h) i }

evaluated_keys : {A : Type 0} (r : Option A × Keyspace) → (evaluated r).1 ≡ r.1
evaluated_keys (none, s) = refl
evaluated_keys (some a, s) = refl

finally_world :
    {A : Type 0} (m : M A) (last : M (Unit {0})) (w : World)
    → (finally m last w).1 ≡ (last (m w).1).1
finally_world m last w = ground arith

module _ {P : Keyspace → Type 0} where
  pub pure-Keeps : {A : Type 0} (a : A) → Keeps P (pure a)
  pure-Keeps a = record { run = λ w h. h }

  pub raise-Keeps : {A : Type 0} (e : Error) → Keeps P (raise {A = A} e)
  raise-Keeps e = record { run = λ w h. h }

  pub trace-Keeps : (t : Trace) → Keeps P (trace t)
  trace-Keeps t = record { run = λ w h. h }

  pub iso_now-Keeps : (env : Env) → Keeps P (iso_now env)
  iso_now-Keeps env = record { run = λ w h. h }

  pub time_ns-Keeps : (env : Env) → Keeps P (time_ns env)
  time_ns-Keeps env = record { run = λ w h. h }

  keeps_bind_at :
      {A B : Type 0} (f : A → M B) (r : Outcome A) (v : World)
      → ((a : A) → Keeps P (f a))
      → P v.keys
      → P (elim r as (λ _. Outcome B × World) [ ok a ↦ f a v | raised e ↦ (raised e, v) ]).1.keys
  keeps_bind_at f (ok a) v hf h = (hf a).run v h
  keeps_bind_at f (raised e) v hf h = h

  pub bind-Keeps :
      {A B : Type 0} {m : M A} {f : A → M B}
      → Keeps P m
      → ((a : A) → Keeps P (f a))
      → Keeps P (m >>= f)
  bind-Keeps {m = m} {f = f} hm hf = record {
    run = λ w h. keeps_bind_at f (m w).0 (m w).1 hf (hm.run w h);
  }

  pub then-Keeps : {A B : Type 0} {m : M A} {k : M B} → Keeps P m → Keeps P k → Keeps P (m >> k)
  then-Keeps hm hk = bind-Keeps hm (λ _. hk)

  pub request-Keeps :
      {A : Type 0} (env : Env) (run : Keyspace → Outcome A × Keyspace)
      → OthersKeep P env
      → ((s : Keyspace) → P s → P (run s).1)
      → Keeps P (request env run)
  request-Keeps env run others h = record { run = go }
    where
      go : (w : World) → P w.keys → P (request env run w).1.keys
      go w p = elim (Bool-cases (env.down w.step)) [
        | inl e ↦ rw e (others w.step w.keys p)
        | inr e ↦ rw e (h (env.others w.step w.keys) (others w.step w.keys p))
      ]

  pub execute-Keeps :
      (env : Env) (c : Command)
      → OthersKeep P env
      → ((s : Keyspace) → P s → P (effect c s))
      → Keeps P (execute (on_documented env) c)
  execute-Keeps env c others h =
      request-Keeps (on_documented env) (λ s. answered (documented c s)) others h

  pub pipeline-Keeps :
      (env : Env) (cs : List Command)
      → OthersKeep P env
      → ((s : Keyspace) → P s → P (run_all documented cs s))
      → Keeps P (pipeline (on_documented env) cs)
  pipeline-Keeps env cs others h =
      request-Keeps (on_documented env) (λ s. (ok tt, run_all documented cs s)) others h

  pub evalsha-Keeps :
      {A : Type 0} (env : Env) (script : Server → Script A)
      → OthersKeep P env
      → ((s : Keyspace) → P s → P (script documented s).1)
      → Keeps P (evalsha (on_documented env) script)
  evalsha-Keeps env script others h =
      request-Keeps (on_documented env) (λ s. evaluated (script documented s)) others
        (λ s p. rw (evaluated_keys (script documented s)) (h s p))

  keeps_caught :
      {A : Type 0} {handler : M A} (e : Error) (v : World)
      → Keeps P handler
      → P v.keys
      → P (catch_redis e handler v).1.keys
  keeps_caught redis_error v hh h = hh.run v h
  keeps_caught validation_error v hh h = h
  keeps_caught cancelled_error v hh h = h
  keeps_caught value_error v hh h = h
  keeps_caught (http_exception n t) v hh h = h

  keeps_tried :
      {A : Type 0} {handler : M A} (r : Outcome A) (v : World)
      → Keeps P handler
      → P v.keys
      → P
          (elim r as (λ _. Outcome A × World) [
            | ok a ↦ (ok a, v)
            | raised e ↦ catch_redis e handler v
          ]).1.keys
  keeps_tried (ok a) v hh h = h
  keeps_tried (raised e) v hh h = keeps_caught e v hh h

  pub try-Keeps :
      {A : Type 0} {m handler : M A} → Keeps P m → Keeps P handler → Keeps P (try_redis m handler)
  try-Keeps {m = m} hm hh = record { run = λ w h. keeps_tried (m w).0 (m w).1 hh (hm.run w h) }

  keeps_caught_any :
      {A : Type 0} {handler : M A} (e : Error) (v : World)
      → Keeps P handler
      → P v.keys
      → P (catch_any e handler v).1.keys
  keeps_caught_any redis_error v hh h = hh.run v h
  keeps_caught_any validation_error v hh h = hh.run v h
  keeps_caught_any cancelled_error v hh h = h
  keeps_caught_any value_error v hh h = hh.run v h
  keeps_caught_any (http_exception n t) v hh h = hh.run v h

  keeps_tried_any :
      {A : Type 0} {handler : M A} (r : Outcome A) (v : World)
      → Keeps P handler
      → P v.keys
      → P
          (elim r as (λ _. Outcome A × World) [
            | ok a ↦ (ok a, v)
            | raised e ↦ catch_any e handler v
          ]).1.keys
  keeps_tried_any (ok a) v hh h = h
  keeps_tried_any (raised e) v hh h = keeps_caught_any e v hh h

  pub try_any-Keeps :
      {A : Type 0} {m handler : M A} → Keeps P m → Keeps P handler → Keeps P (try_any m handler)
  try_any-Keeps {m = m} hm hh = record {
    run = λ w h. keeps_tried_any (m w).0 (m w).1 hh (hm.run w h);
  }

  pub finally-Keeps :
      {A : Type 0} {m : M A} {last : M (Unit {0})}
      → Keeps P m
      → Keeps P last
      → Keeps P (finally m last)
  finally-Keeps {m = m} {last = last} hm hl = record {
    run = λ w h. rw (finally_world m last w) (hl.run (m w).1 (hm.run w h));
  }

  pub branch-Keeps :
      {A : Type 0} {m k : M A} (b : Bool)
      → Keeps P m
      → Keeps P k
      → Keeps P (elim b [ true ↦ m | false ↦ k ])
  branch-Keeps true hm hk = hm
  branch-Keeps false hm hk = hk

pub ruleset keeps = (
  pure-Keeps, raise-Keeps, trace-Keeps, iso_now-Keeps, time_ns-Keeps, bind-Keeps, then-Keeps,
  request-Keeps, try-Keeps, try_any-Keeps, finally-Keeps,
)

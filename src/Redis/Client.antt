-- ===== src/Redis/Client.antt =====
-- The client's side of Redis: what a coroutine sees when it awaits a command, a transaction or a
-- script. A coroutine is a function from the world to an outcome and the world after it.
use talki_llm_admission_sche.Base.{
  ℕ, suc, Bool, false, Option, none, some, List, [], ◌∷◌, String, if◌then◌else◌,
}
use talki_llm_admission_sche.Base.Int.{ℤ}
use talki_llm_admission_sche.Redis.Data.{Keyspace}
use talki_llm_admission_sche.Redis.Commands.{Command, Reply, Server}

-- The exceptions that the modelled code raises, passes on or handles. An `http_exception` has its
-- status and its detail.
pub data Error : Type 0 where
  redis_error : Error
  validation_error : Error
  cancelled_error : Error
  value_error : Error
  http_exception : ℕ → String → Error

pub data Outcome (A : Type 0) : Type 0 where
  ok : A → Outcome A
  raised : Error → Outcome A

-- A value in a log event.
pub data Value : Type 0 where
  text : String → Value
  number : ℤ → Value
  flag : Bool → Value
  null : Value

-- What the process does outside Redis: a Prometheus metric with its labels and the value observed or
-- set, and an event handed to the JSONL logger.
pub data Trace : Type 0 where
  counted : String → List String → Trace
  observed gauged : String → List String → ℤ → Trace
  logged : List (String × Value) → Trace

-- `step` counts the commands sent so far.
pub record World : Type 0 where
  pub keys : Keyspace
  pub step : ℕ
  pub traces : List Trace

-- The surroundings of a coroutine. `down n` says that command number `n` ends in a RedisError, with
-- no effect; `others n` is what the other clients of the server do just before command number `n`;
-- the clocks are read when `n` commands have been sent, `iso_now` for a text and `time_ns` for
-- nanoseconds since the epoch.
pub record Env : Type 0 where
  pub srv : Server
  pub down : ℕ → Bool
  pub others : ℕ → Keyspace → Keyspace
  pub iso_now : ℕ → String
  pub time_ns : ℕ → ℕ
  pub sha256 : String → String

abbrev pub M : Type 0 → Type 0
M A = World → Outcome A × World

abbrev pub pure : {A : Type 0} → A → M A
pure a w = (ok a, w)

abbrev pub raise : {A : Type 0} → Error → M A
raise e w = (raised e, w)

infixl 5 ◌>>=◌ ◌>>◌
abbrev pub ◌>>=◌ : {A B : Type 0} → M A → (A → M B) → M B
◌>>=◌ m f w = let (r, v) = m w in elim r [ ok a ↦ f a v | raised e ↦ (raised e, v) ]

abbrev pub ◌>>◌ : {A B : Type 0} → M A → M B → M B
m >> k = m >>= λ _. k

-- `try: m` with `except RedisError: handler`. Other exceptions pass.
abbrev pub catch_redis : {A : Type 0} → Error → M A → World → Outcome A × World
catch_redis redis_error handler w = handler w
catch_redis e handler w = (raised e, w)

abbrev pub try_redis : {A : Type 0} → M A → M A → M A
try_redis m handler w =
    let (r, v) = m w in elim r [ ok a ↦ (ok a, v) | raised e ↦ catch_redis e handler v ]

-- `try: m` with `except Exception: handler`, where CancelledError passes.
abbrev pub catch_any : {A : Type 0} → Error → M A → World → Outcome A × World
catch_any cancelled_error handler w = (raised cancelled_error, w)
catch_any e handler w = handler w

abbrev pub try_any : {A : Type 0} → M A → M A → M A
try_any m handler w =
    let (r, v) = m w in elim r [ ok a ↦ (ok a, v) | raised e ↦ catch_any e handler v ]

-- `try: m` with `finally: last`: an exception of `last` replaces the outcome of `m`.
abbrev pub finally : {A : Type 0} → M A → M (Unit {0}) → M A
finally m last w =
    let (r, v) = m w in let (q, u) = last v in elim q [ ok _ ↦ (r, u) | raised e ↦ (raised e, u) ]

abbrev pub trace : Trace → M (Unit {0})
trace t w = (ok tt, record w { traces = t ∷ w.traces })

-- One request to the server, which a run of commands on the data answers.
abbrev pub request : {A : Type 0} → Env → (Keyspace → Outcome A × Keyspace) → M A
request env run w =
    let s = env.others w.step w.keys in
    let (r, s') = run s in
    if env.down w.step
    then (raised redis_error, record w { keys = s; step = suc w.step })
    else (r, record w { keys = s'; step = suc w.step })

abbrev pub answered : {A : Type 0} → A × Keyspace → Outcome A × Keyspace
answered (r, s) = (ok r, s)

abbrev pub execute : (env : Env) (c : Command) → M (Reply c)
execute env c = request env (λ s. answered (env.srv c s))

-- MULTI and EXEC: the commands in turn with nothing in between, or none of them. The answers are
-- not read.
abbrev pub run_all : Server → List Command → Keyspace → Keyspace
run_all srv [] s = s
run_all srv (c ∷ cs) s = run_all srv cs (srv c s).1

abbrev pub pipeline : Env → List Command → M (Unit {0})
pipeline env cs = request env (λ s. (ok tt, run_all env.srv cs s))

-- A Lua script, which runs with nothing in between. `none` is an error of a command in it: what the
-- script wrote before stays written, and the client raises a RedisError.
abbrev pub Script : Type 0 → Type 0
Script A = Keyspace → Option A × Keyspace

abbrev pub evaluated : {A : Type 0} → Option A × Keyspace → Outcome A × Keyspace
evaluated (none, s) = (raised redis_error, s)
evaluated (some a, s) = (ok a, s)

abbrev pub evalsha : {A : Type 0} → Env → (Server → Script A) → M A
evalsha env script = request env (λ s. evaluated (script env.srv s))

abbrev pub iso_now : Env → M String
iso_now env w = (ok (env.iso_now w.step), w)

abbrev pub time_ns : Env → M ℕ
time_ns env w = (ok (env.time_ns w.step), w)

-- Surroundings with no fault and no other client.
abbrev pub calm : Server → (ℕ → String) → (ℕ → ℕ) → (String → String) → Env
calm srv iso ns sha = record {
  srv = srv;
  down = λ _. false;
  others = λ _ s. s;
  iso_now = iso;
  time_ns = ns;
  sha256 = sha;
}

-- ===== src/Orchestrator/Daemon.antt =====
-- orchestrator/main.py: the loop of heartbeats, with the events of orchestrator/audit.py. How a tick of all agents ends
-- (asyncio's `gather` of their heartbeats), whether an event can be written and when a signal has come are arguments.
pub mod Ends
use talki_llm_admission_sche.Base.{
  ℕ, zero, suc, Bool, true, false, Option, none, some, List, [], ◌∷◌, length,
}
use talki_llm_admission_sche.Orchestrator.Text.{Text}

-- What the daemon does: an event of the audit file, a tick of all agents, a wait for the stop or the interval.
pub data Happening : Type 0 where
  boot heartbeat_start tick wait shutdown : Happening
  heartbeat_fail : Text → Happening

-- Each by the number of the happenings before: whether `stop` is set, the exception of a tick, if it has one, with
-- its text, and whether `log_event` writes its line; else it raises an OSError.
pub record Env : Type 0 where
  pub stopped : ℕ → Bool
  pub tick_error : ℕ → Option Text
  pub writes : ℕ → Bool

-- The loop has ended, an exception has left it, or it goes on after so many rounds.
pub data Progress : Type 0 where
  ended crashed going_on : Progress

abbrev pub Run : Type 0
Run = Progress × List Happening

-- `log_event`, and what follows if it writes its line
abbrev pub logging : Env → Happening → List Happening → (List Happening → Run) → Run
logging env h l next = elim (env.writes (length l)) [
  | true ↦ next (h ∷ l)
  | false ↦ (crashed, h ∷ l)
]

-- `except Exception`, then the wait
abbrev pub after_tick : Env → Option Text → List Happening → (List Happening → Run) → Run
after_tick env none l next = next (wait ∷ l)
after_tick env (some e) l next = logging env (heartbeat_fail e) l (λ k. next (wait ∷ k))

-- One turn of the loop, and what follows it
abbrev pub round : Env → List Happening → (List Happening → Run) → Run
round env l next =
    logging env heartbeat_start l λ k. after_tick env (env.tick_error (length k)) (tick ∷ k) next

-- `loop`, with the rounds that are allowed
unfoldable pub loop : ℕ → Env → List Happening → Run
loop zero env l = elim (env.stopped (length l)) [ true ↦ (ended, l) | false ↦ (going_on, l) ]
loop (suc rounds) env l = elim (env.stopped (length l)) [
  | true ↦ (ended, l)
  | false ↦ round env l (loop rounds env)
]

abbrev pub when_ended : Run → (List Happening → Run) → Run
when_ended (ended, l) next = next l
when_ended (crashed, l) next = (crashed, l)
when_ended (going_on, l) next = (going_on, l)

-- The tick of `--once`, whose exception leaves the program.
abbrev pub only_tick : Option Text → List Happening → Run
only_tick none l = (ended, tick ∷ l)
only_tick (some e) l = (crashed, tick ∷ l)

-- `amain`, once or with the rounds that are allowed
unfoldable pub amain : Bool → ℕ → Env → Run
unfolding loop
amain once rounds env = logging env boot [] λ l. elim once [
  | true ↦ only_tick (env.tick_error (length l)) l
  | false ↦ when_ended (loop rounds env l) (λ k. logging env shutdown k (λ j. (ended, j)))
]

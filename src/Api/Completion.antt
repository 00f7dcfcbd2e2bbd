-- ===== src/Api/Completion.antt =====
-- The wait of a synchronous request for the end of its job.
use talki_llm_admission_sche.Base.{
  ℕ, zero, suc, ◌+◌, leb, Option, none, some, String, if◌then◌else◌,
}
use talki_llm_admission_sche.Keys.{job}
use talki_llm_admission_sche.Redis.{Env, M, Outcome, ok, pure, ◌>>=◌, ◌>>◌, execute, hget}
use talki_llm_admission_sche.Api.Jobs.{is_terminal}

-- What a waiting request hears, by the number of commands sent: how its subscription ends, the
-- message that `get_message` yields within its timeout, and the monotonic clock in nanoseconds.
pub record Listener : Type 0 where
  pub subscribe : ℕ → Outcome (Unit {0})
  pub get_message : ℕ → Outcome (Option String)
  pub monotonic : ℕ → ℕ

-- How the wait ends: with a status or at its deadline. `listening` is a wait that has taken all the
-- rounds that are looked at.
pub data Waited : Type 0 where
  finished : String → Waited
  timed_out listening : Waited

abbrev pub by_status : M Waited → Option String → M Waited
by_status again none = again
by_status again (some status) = if is_terminal status then pure (finished status) else again

abbrev pub by_message : Env → String → M Waited → Option String → M Waited
by_message env job_id again (some status) = pure (finished status)
by_message env job_id again none = execute env (hget (job job_id) "status") >>= by_status again

-- The `while True` loop of _wait_for_completion.
unfoldable pub wait_loop : ℕ → Env → Listener → String → ℕ → M Waited
wait_loop zero env heard job_id deadline = pure listening
wait_loop (suc rounds) env heard job_id deadline =
    let again = wait_loop rounds env heard job_id deadline in
    λ w.
      if leb deadline (heard.monotonic w.step)
      then (ok timed_out, w)
      else ((λ v. (heard.get_message v.step, v)) >>= by_message env job_id again) w

-- `_wait_for_completion`; what fails when the subscription ends is ignored.
unfoldable pub wait_for_completion : ℕ → Env → Listener → String → ℕ → M Waited
unfolding wait_loop
wait_for_completion rounds env heard job_id timeout_ns w =
    ((λ v. (heard.subscribe v.step, v))
        >> wait_loop rounds env heard job_id (heard.monotonic w.step + timeout_ns))
      w

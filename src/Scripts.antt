-- ===== src/Scripts.antt =====
-- app/storage/redis_lua.py: the three Lua scripts, which the server runs atomically, and the text
-- that the client joins the fields of a new job into.
mod Text
mod Lua
pub mod Joined
pub mod Plain
pub mod Atomic
unfoldable pub use Text.*
use talki_llm_admission_sche.Base.{
  ℕ, Bool, true, false, Option, none, some, List, [], ◌∷◌, String, ◌==◌, if◌then◌else◌,
}
use talki_llm_admission_sche.Base.Int.{ℤ, pos, ltb_ℤ, leb_ℤ}
use talki_llm_admission_sche.Keys.{Key, job}
use talki_llm_admission_sche.Redis.{
  Server, Script, Command, get_number, incr, hset, zrem, zcard, zadd, get_or, Fields, Env, M,
  evalsha,
}
use Prim.Native.String.{◌++◌}
use Lua.{call, return, fail, ◌>>=◌, ◌>>◌}

-- CLAIM_SLOT_SCRIPT
claim_below : Server → Key → String → String → ℤ → Option ℤ → Script ℕ
claim_below srv in_use_key job_id ts_iso in_use none = return 0
claim_below srv in_use_key job_id ts_iso in_use (some capacity) =
    if ltb_ℤ in_use capacity
    then (do
      call srv (incr in_use_key)
      call srv (hset (job job_id) (("status", "dispatched") ∷ ("dispatch_ts", ts_iso) ∷ []))
      return 1)
    else return 0

unfoldable pub claim_slot : Key → Key → String → String → Server → Script ℕ
unfolding claim_below
claim_slot in_use_key capacity_key job_id ts_iso srv = do
  in_use ← call srv (get_number in_use_key)
  capacity ← call srv (get_number capacity_key)
  claim_below srv in_use_key job_id ts_iso (get_or (pos 0) in_use) capacity

-- CANCEL_QUEUED_SCRIPT
cancel_removed : Server → Key → String → Bool → Script ℕ
cancel_removed srv job_k cancel_ts true = do
  call srv (hset job_k (("status", "cancelled") ∷ ("complete_ts", cancel_ts) ∷ []))
  return 1
cancel_removed srv job_k cancel_ts false = return 0

unfoldable pub cancel_queued : Key → Key → String → String → Server → Script ℕ
unfolding cancel_removed
cancel_queued queue_k job_k job_id cancel_ts srv = do
  removed ← call srv (zrem queue_k job_id)
  cancel_removed srv job_k cancel_ts (removed == 1)

-- ENQUEUE_JOB_SCRIPT
unfoldable pub hset_parts : Server → Key → Option Fields → Script ℕ
hset_parts srv job_k none = fail
hset_parts srv job_k (some fields) = do call srv (hset job_k fields); return 1

unfoldable pub enqueue_below : Server → Key → Key → String → ℤ → String → Bool → Script ℕ
unfolding hset_parts
enqueue_below srv queue_k job_k job_id score flat_str true = return 0
enqueue_below srv queue_k job_k job_id score flat_str false = do
  call srv (zadd queue_k score job_id)
  hset_parts srv job_k (pairs (drop_empty (tokens (flat_str ++ nul_text))))

unfoldable pub enqueue_job : Key → Key → String → ℤ → ℤ → String → Server → Script ℕ
unfolding enqueue_below
enqueue_job queue_k job_k job_id score max_depth flat_str srv = do
  depth ← call srv (zcard queue_k)
  enqueue_below srv queue_k job_k job_id score flat_str (leb_ℤ max_depth (pos depth))

-- The wrappers of class LuaScripts.
unfoldable pub evalsha_claim_slot : Env → Key → Key → String → String → M ℕ
evalsha_claim_slot env in_use_key capacity_key job_id ts_iso =
    evalsha env (claim_slot in_use_key capacity_key job_id ts_iso)

unfoldable pub evalsha_cancel_queued : Env → Key → Key → String → String → M ℕ
evalsha_cancel_queued env queue_k job_k job_id cancel_ts =
    evalsha env (cancel_queued queue_k job_k job_id cancel_ts)

unfoldable pub evalsha_enqueue_job : Env → Key → Key → String → ℤ → ℤ → List String → M ℕ
evalsha_enqueue_job env queue_k job_k job_id score max_depth field_values =
    evalsha env (enqueue_job queue_k job_k job_id score max_depth (join_nul field_values))

-- ===== src/Admission/Score.antt =====
-- The score of a job in its queue, and the estimate of the drain time (app/core/admission.py). A score
-- is an exact integer here, where Python has a `float`, which is exact below 2 ^ 53.
use talki_llm_admission_sche.Base.{ℕ, ◌%◌, ◌-◌, ◌/◌, ◌*◌, if◌then◌else◌, leb}
use talki_llm_admission_sche.Base.Int.{ℤ, pos, negsuc, ◌+ℤ◌, ◌*ℤ◌, ltb_ℤ, pos_part}

abbrev pub priority_multiplier : ℕ
priority_multiplier = 1000000000000

-- Python's `n % k` for a positive k.
abbrev pub mod_ℤ : ℤ → ℕ → ℕ
mod_ℤ (pos n) k = n % k
mod_ℤ (negsuc n) k = k - 1 - n % k

-- `float(effective_priority * PRIORITY_MULTIPLIER + enqueue_ns + (seq % 1000))`, with
-- `enqueue_ns = int(time.time_ns()) % PRIORITY_MULTIPLIER`.
unfoldable pub score : ℤ → ℕ → ℤ → ℤ
score effective_priority time_ns seq =
    effective_priority *ℤ pos priority_multiplier
    +ℤ pos (time_ns % priority_multiplier)
    +ℤ pos (mod_ℤ seq 1000)

-- `queue_depth // max(1, max_concurrency)` for a depth that is never negative.
abbrev max_one : ℤ → ℕ
max_one c = if leb 1 (pos_part c) then pos_part c else 1

abbrev max_ℕ : ℕ → ℕ → ℕ
max_ℕ a b = if leb b a then a else b

unfoldable pub estimate_drain : ℕ → ℤ → ℕ
estimate_drain queue_depth max_concurrency =
    if ltb_ℤ max_concurrency (pos 1)
    then 60
    else max_ℕ 5 (queue_depth / max_one max_concurrency * 10)

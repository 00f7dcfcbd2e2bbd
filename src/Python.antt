-- ===== src/Python.antt =====
-- Idioms of the source that its parts share.
pub mod Keeps
use talki_llm_admission_sche.Base.{Option, none, some, String, str_eq, if◌then◌else◌}
use talki_llm_admission_sche.Base.Int.{ℤ, pos}
use talki_llm_admission_sche.Redis.{M, pure, raise, value_error, ◌>>=◌, ◌>>◌, try_redis}
use talki_llm_admission_sche.Metrics.{record_redis_error}

-- What Python's `int` makes of a text; `none` is a ValueError.
abbrev pub IntParser : Type 0
IntParser = String → Option ℤ

abbrev pub int_of : Option ℤ → M ℤ
int_of none = raise value_error
int_of (some n) = pure n

-- `int(text) if text else 5`
abbrev pub int_or_5 : IntParser → String → M ℤ
int_or_5 parse_int text = if str_eq text "" then pure (pos 5) else int_of (parse_int text)

-- `x or y` on texts.
abbrev pub or_text : String → String → String
or_text x y = if str_eq x "" then y else x

-- A call under `try … except RedisError`, whose handler counts the error; `none` is the error.
unfoldable pub counting_errors : {A : Type 0} → String → M A → M (Option A)
counting_errors operation m =
    try_redis (m >>= λ a. pure (some a)) (record_redis_error operation >> pure none)

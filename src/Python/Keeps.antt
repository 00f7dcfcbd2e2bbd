-- ===== src/Python/Keeps.antt =====
-- The shared idioms keep what their parts keep.
use talki_llm_admission_sche.Base.{Option, none, some, String, str_eq, Bool-cases, inl, inr}
use talki_llm_admission_sche.Base.Int.{ℤ, pos}
use talki_llm_admission_sche.Redis.{Keyspace, M, value_error}
use talki_llm_admission_sche.Redis.Keeps.{
  Keeps, pure-Keeps, raise-Keeps, trace-Keeps, bind-Keeps, then-Keeps, try-Keeps,
}
use talki_llm_admission_sche.Metrics.{record_redis_error}
use talki_llm_admission_sche.Python.{IntParser, int_of, int_or_5, counting_errors}

module _ {P : Keyspace → Type 0} where
  int_of-Keeps : (o : Option ℤ) → Keeps P (int_of o)
  int_of-Keeps none = raise-Keeps value_error
  int_of-Keeps (some n) = pure-Keeps n

  pub int_or_5-Keeps : (p : IntParser) (t : String) → Keeps P (int_or_5 p t)
  int_or_5-Keeps p t = elim (Bool-cases (str_eq t "")) [
    | inl e ↦ rw e (pure-Keeps (pos 5))
    | inr e ↦ rw e (int_of-Keeps (p t))
  ]

  pub record_redis_error-Keeps : (operation : String) → Keeps P (record_redis_error operation)
  unfolding record_redis_error
  record_redis_error-Keeps operation = trace-Keeps _

  pub counting_errors-Keeps :
      {A : Type 0} (operation : String) {m : M A}
      → Keeps P m
      → Keeps P (counting_errors operation m)
  unfolding counting_errors
  counting_errors-Keeps operation h =
      try-Keeps (bind-Keeps h (λ a. pure-Keeps (some a)))
        (then-Keeps (record_redis_error-Keeps operation) (pure-Keeps none))

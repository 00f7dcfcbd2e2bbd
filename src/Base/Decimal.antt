-- ===== src/Base/Decimal.antt =====
-- Python's `str` of an integer.
use Prim.Native.Nat.{ℕ, zero, suc, ◌/◌, ◌%◌}
use Prim.Native.String.{String, ◌++◌}
use talki_llm_admission_sche.Base.Int.{ℤ, pos, negsuc}
use talki_llm_admission_sche.Base.Tests.{ltb, if◌then◌else◌}

abbrev pub digit : ℕ → String
digit zero = "0"
digit (suc zero) = "1"
digit (suc (suc zero)) = "2"
digit (suc (suc (suc zero))) = "3"
digit (suc (suc (suc (suc zero)))) = "4"
digit (suc (suc (suc (suc (suc zero))))) = "5"
digit (suc (suc (suc (suc (suc (suc zero)))))) = "6"
digit (suc (suc (suc (suc (suc (suc (suc zero))))))) = "7"
digit (suc (suc (suc (suc (suc (suc (suc (suc zero)))))))) = "8"
digit (suc (suc (suc (suc (suc (suc (suc (suc (suc n))))))))) = "9"

-- The digits of a number below 10 ^ fuel.
unfoldable pub decimal : ℕ → ℕ → String
decimal zero n = digit (n % 10)
decimal (suc fuel) n =
    let higher = decimal fuel (n / 10) in if ltb n 10 then digit n else higher ++ digit (n % 10)

-- A number n has at most n digits, or one.
unfoldable pub str : ℤ → String
unfolding decimal
str (pos n) = decimal n n
str (negsuc n) = "-" ++ decimal (suc n) (suc n)

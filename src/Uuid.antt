-- ===== src/Uuid.antt =====
-- src/app/core/uuid7.py: the identifiers of jobs. The clock, in milliseconds, and the 80 random bits are
-- arguments; `&` with a mask is a remainder and `>>` a quotient, and `|` is a sum, since the fields do not
-- overlap.
pub mod Order
use talki_llm_admission_sche.Base.{
  ℕ, zero, suc, ◌+◌, ◌*◌, ◌/◌, ◌%◌, ◌^◌, ltb, List, [], ◌∷◌, ◌++◌, if◌then◌else◌,
}

-- `ms`
abbrev pub time_field : ℕ → ℕ
time_field ms = ms % 2 ^ 48

abbrev pub rand_a : ℕ → ℕ
rand_a bits = bits / 2 ^ 62 % 2 ^ 12

abbrev pub rand_b : ℕ → ℕ
rand_b bits = bits % 2 ^ 62

-- `value`
unfoldable pub uuid_value : ℕ → ℕ → ℕ
uuid_value ms bits =
    time_field ms * 2 ^ 80 + 7 * 2 ^ 76 + rand_a bits * 2 ^ 64 + 2 * 2 ^ 62 + rand_b bits

-- A digit of base 16, as a code point.
abbrev pub hex_digit : ℕ → ℕ
hex_digit d = if ltb d 10 then b'0' + d else 87 + d

-- The last digits of a number, of the given count.
unfoldable pub hex : ℕ → ℕ → List ℕ
hex zero n = []
hex (suc k) n = hex k (n / 16) ++ (hex_digit (n % 16) ∷ [])

-- A character put after as many others.
unfoldable pub put_after : ℕ → ℕ → List ℕ → List ℕ
put_after k c [] = c ∷ []
put_after zero c (d ∷ s) = c ∷ d ∷ s
put_after (suc k) c (d ∷ s) = d ∷ put_after k c s

-- `str(uuid.UUID(int=n))`
unfoldable pub uuid_text : ℕ → List ℕ
unfolding hex put_after
uuid_text n =
    put_after 23 b'-' (put_after 18 b'-' (put_after 13 b'-' (put_after 8 b'-' (hex 32 n))))

-- `uuid7`
unfoldable pub uuid7 : ℕ → ℕ → List ℕ
unfolding uuid_value uuid_text
uuid7 ms bits = uuid_text (uuid_value ms bits)

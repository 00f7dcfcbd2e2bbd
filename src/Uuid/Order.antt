-- ===== src/Uuid/Order.antt =====
-- The fields of an identifier, and that the texts of identifiers are in the order of the times.
use talki_llm_admission_sche.Base.{
  ℕ, zero, suc, ◌/◌, ◌%◌, ◌^◌, ◌<◌, ◌≡◌, List, [], ◌∷◌, ◌++◌, arith, ◌⊎◌, inl, inr,
}
use talki_llm_admission_sche.Uuid.{
  rand_a, rand_b, uuid_value, hex_digit, hex, put_after, uuid_text, uuid7,
}

-- The identifier is a number of 128 bits, and its fields are where RFC 9562 has them: 48 bits of time, the
-- version 7, 12 random bits, the variant 2 and 62 random bits.
pub uuid_value_fields :
    (ms bits : ℕ)
    → (uuid_value ms bits < 2 ^ 128)
      × (uuid_value ms bits / 2 ^ 80 ≡ ms % 2 ^ 48)
      × (uuid_value ms bits / 2 ^ 76 % 2 ^ 4 ≡ 7)
      × (uuid_value ms bits / 2 ^ 64 % 2 ^ 12 ≡ rand_a bits)
      × (uuid_value ms bits / 2 ^ 62 % 2 ^ 2 ≡ 2)
      × (uuid_value ms bits % 2 ^ 62 ≡ rand_b bits)
unfolding uuid_value
uuid_value_fields ms bits =
    (omega arith, omega arith, omega arith, omega arith, omega arith, omega arith)

-- The order of texts of which neither begins with the other: by the first character that differs.
pub data IsBefore : List ℕ → List ℕ → Type 0 where
  differs : {c d : ℕ} (s t : List ℕ) → c < d → IsBefore (c ∷ s) (d ∷ t)
  agrees : (c : ℕ) {s t : List ℕ} → IsBefore s t → IsBefore (c ∷ s) (c ∷ t)

append-IsBefore : {s t : List ℕ} (u v : List ℕ) → IsBefore s t → IsBefore (s ++ u) (t ++ v)
append-IsBefore u v (differs s t h) = differs (s ++ u) (t ++ v) h
append-IsBefore u v (agrees c h) = agrees c (append-IsBefore u v h)

prepend-IsBefore : (s : List ℕ) {u v : List ℕ} → IsBefore u v → IsBefore (s ++ u) (s ++ v)
prepend-IsBefore [] h = h
prepend-IsBefore (c ∷ s) h = agrees c (prepend-IsBefore s h)

put_after-IsBefore :
    (k c : ℕ) {s t : List ℕ} → IsBefore s t → IsBefore (put_after k c s) (put_after k c t)
unfolding put_after
put_after-IsBefore zero c (differs s t h) = agrees c (differs s t h)
put_after-IsBefore zero c (agrees d h) = agrees c (agrees d h)
put_after-IsBefore (suc k) c (differs s t h) = differs (put_after k c s) (put_after k c t) h
put_after-IsBefore (suc k) c (agrees d h) = agrees d (put_after-IsBefore k c h)

-- The number has no more than so many digits.
abbrev HasDigits : ℕ → ℕ → Type 0
HasDigits zero n = n ≡ 0
HasDigits (suc k) n = HasDigits k (n / 16)

hex_digit_mono : (d e : ℕ) → d < e → e < 16 → hex_digit d < hex_digit e
hex_digit_mono d e h k = ground (arith, h, k)

quotient_cases : (a b : ℕ) → a < b → (a / 16 < b / 16) ⊎ ((a / 16 ≡ b / 16) × (a % 16 < b % 16))
quotient_cases a b h = ground arith

hex-IsBefore : (k a b : ℕ) → HasDigits k b → a < b → IsBefore (hex k a) (hex k b)
unfolding hex
hex-IsBefore zero a b digits h = absurd (omega (arith, digits, h))
hex-IsBefore (suc k) a b digits h = elim (quotient_cases a b h) [
  | inl lt ↦
      append-IsBefore (hex_digit (a % 16) ∷ []) (hex_digit (b % 16) ∷ [])
        (hex-IsBefore k (a / 16) (b / 16) digits lt)
  | inr (e, lt) ↦ rw e (
      prepend-IsBefore (hex k (b / 16))
        (differs [] [] (hex_digit_mono (a % 16) (b % 16) lt (omega arith))))
]

digits_of_uuid : (n : ℕ) → n < 2 ^ 128 → HasDigits 32 n
digits_of_uuid n h = omega (arith, h)

-- Texts of identifiers sort as their numbers do.
pub uuid_text-IsBefore : (a b : ℕ) → b < 2 ^ 128 → a < b → IsBefore (uuid_text a) (uuid_text b)
unfolding uuid_text
uuid_text-IsBefore a b bound h = put_after-IsBefore 23 b'-' (
    put_after-IsBefore 18 b'-' (
      put_after-IsBefore 13 b'-'
        (put_after-IsBefore 8 b'-' (hex-IsBefore 32 a b (digits_of_uuid b bound) h))))

-- Identifiers made in different milliseconds, of the 2 ^ 48 that the field can hold, sort as texts by
-- their times, whatever the random bits are.
pub uuid7_sorts :
    (ms bits ms2 bits2 : ℕ) → ms < ms2 → ms2 < 2 ^ 48 → IsBefore (uuid7 ms bits) (uuid7 ms2 bits2)
unfolding uuid7 uuid_value
uuid7_sorts ms bits ms2 bits2 h bound =
    uuid_text-IsBefore (uuid_value ms bits) (uuid_value ms2 bits2) (omega (arith, bound))
      (omega (arith, h, bound))

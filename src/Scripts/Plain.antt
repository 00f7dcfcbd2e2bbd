-- ===== src/Scripts/Plain.antt =====
-- Texts that survive the trip to the script: numbers in decimal.
use Prim.Native.Nat.{ℕ, zero, suc, ◌/◌, ◌%◌}
use Prim.Native.String.{◌++◌}
use Prim.Native.Char.{Char, code}
use Prim.Native.String.compare
use text.Mathlib.Text.{is_eq}
use text.Mathlib.TextLemmas.{nil-append, cons-append}
use talki_llm_admission_sche.Base.{
  ◌≡◌, refl, ap, Bool, true, false, not, ◌&&◌, ◌==◌, arith, String, ltb, str_eq, Bool-cases, inl,
  inr,
}
use talki_llm_admission_sche.Base.Int.{ℤ, pos, negsuc}
use talki_llm_admission_sche.Base.Decimal.{digit, decimal, str}
use talki_llm_admission_sche.Scripts.Joined.{HasNoNul, IsPlain}

digit-IsPlain : (n : ℕ) → IsPlain (digit n)
digit-IsPlain zero = (refl, (refl, tt))
digit-IsPlain (suc zero) = (refl, (refl, tt))
digit-IsPlain (suc (suc zero)) = (refl, (refl, tt))
digit-IsPlain (suc (suc (suc zero))) = (refl, (refl, tt))
digit-IsPlain (suc (suc (suc (suc zero)))) = (refl, (refl, tt))
digit-IsPlain (suc (suc (suc (suc (suc zero))))) = (refl, (refl, tt))
digit-IsPlain (suc (suc (suc (suc (suc (suc zero)))))) = (refl, (refl, tt))
digit-IsPlain (suc (suc (suc (suc (suc (suc (suc zero))))))) = (refl, (refl, tt))
digit-IsPlain (suc (suc (suc (suc (suc (suc (suc (suc zero)))))))) = (refl, (refl, tt))
digit-IsPlain (suc (suc (suc (suc (suc (suc (suc (suc (suc n))))))))) = (refl, (refl, tt))

HasNoNul-append : (x y : String) → HasNoNul x → HasNoNul y → HasNoNul (x ++ y)
HasNoNul-append String.[] y hx hy = rw (nil-append y) hy
HasNoNul-append (String.◌∷◌ c x) y hx hy =
    rw (cons-append c x y) (hx.0, HasNoNul-append x y hx.1 hy)

cons-ne-empty : (c : Char) (t : String) → str_eq (String.◌∷◌ c t) "" ≡ false
cons-ne-empty c t = ap is_eq (compare.cons-nil c t)

append-IsPlain : (x y : String) → IsPlain x → IsPlain y → IsPlain (x ++ y)
append-IsPlain String.[] y hx hy = rw (nil-append y) hy
append-IsPlain (String.◌∷◌ c x) y hx hy =
    rw (cons-append c x y) (cons-ne-empty c (x ++ y), (hx.1.0, HasNoNul-append x y hx.1.1 hy.1))

decimal-IsPlain : (fuel n : ℕ) → IsPlain (decimal fuel n)
unfolding decimal
decimal-IsPlain zero n = digit-IsPlain (n % 10)
decimal-IsPlain (suc fuel) n = elim (Bool-cases (ltb n 10)) [
  | inl e ↦ rw e (digit-IsPlain n)
  | inr e ↦ rw e (
      append-IsPlain (decimal fuel (n / 10)) (digit (n % 10)) (decimal-IsPlain fuel (n / 10))
        (digit-IsPlain (n % 10)))
]

-- A number in decimal is not empty and has no NUL.
pub str-IsPlain : (n : ℤ) → IsPlain (str n)
unfolding str
str-IsPlain (pos n) = decimal-IsPlain n n
str-IsPlain (negsuc n) =
    append-IsPlain "-" (decimal (suc n) (suc n)) (refl, (refl, tt))
      (decimal-IsPlain (suc n) (suc n))

-- The same as a test, for the texts that the source writes out.
abbrev pub no_nul : String → Bool
no_nul String.[] = true
no_nul (String.◌∷◌ c t) = not (code c == 0) && no_nul t

no_nul_sound : (x : String) → no_nul x ≡ true → HasNoNul x
no_nul_sound String.[] h = tt
no_nul_sound (String.◌∷◌ c t) h = ground (arith, no_nul_sound t)

pub plain : (x : String) → (not (str_eq x "") && no_nul x) ≡ true → IsPlain x
plain x h = ground (arith, no_nul_sound x)

-- ===== src/Redis/Zset.antt =====
-- Redis sorted sets: scores and members, in the order that Redis keeps them in.
use Prim.Native.String.{compare}
use text.Mathlib.Text.{is_lt}
use talki_llm_admission_sche.Base.{
  ℕ, suc, Bool, false, ◌||◌, ◌&&◌, Option, none, some, List, [], ◌∷◌, String, str_eq, if◌then◌else◌,
}
use talki_llm_admission_sche.Base.Int.{ℤ, ltb_ℤ, leb_ℤ}

abbrev pub Zset : Type 0
Zset = List (ℤ × String)

-- Whether an entry stands before another: by score, and at equal scores by member.
abbrev pub before : ℤ × String → ℤ × String → Bool
before (s, m) (t, n) = ltb_ℤ s t || (leb_ℤ s t && is_lt (compare m n))

abbrev pub insert : ℤ × String → Zset → Zset
insert e [] = e ∷ []
insert e (x ∷ z) = if before e x then e ∷ x ∷ z else x ∷ insert e z

abbrev pub has : String → Zset → Bool
has m [] = false
has m ((s, n) ∷ z) = str_eq n m || has m z

abbrev pub score : String → Zset → Option ℤ
score m [] = none
score m ((s, n) ∷ z) = if str_eq n m then some s else score m z

abbrev pub remove : String → Zset → Zset
remove m [] = []
remove m ((s, n) ∷ z) = if str_eq n m then remove m z else (s, n) ∷ remove m z

-- A new score moves a member that is there.
abbrev pub add : ℤ → String → Zset → Zset
add s m z = insert (s, m) (remove m z)

abbrev rank_from : ℕ → String → Zset → Option ℕ
rank_from i m [] = none
rank_from i m ((s, n) ∷ z) = if str_eq n m then some i else rank_from (suc i) m z

abbrev pub rank : String → Zset → Option ℕ
rank = rank_from 0

-- The members with a score in a range.
abbrev pub between : ℤ → ℤ → Zset → List String
between lo hi [] = []
between lo hi ((s, n) ∷ z) =
    if leb_ℤ lo s && leb_ℤ s hi then n ∷ between lo hi z else between lo hi z

abbrev pub rest : Zset → Zset
rest [] = []
rest (x ∷ z) = z

abbrev pub first : Zset → Option (ℤ × String)
first [] = none
first (x ∷ z) = some x

-- ===== src/Redis/Size.antt =====
-- How the commands on a sorted set change its members.
use talki_llm_admission_sche.Base.{
  suc, ◌≤◌, ◌≡◌, refl, true, false, [], ◌∷◌, String, arith, length, eq_refl,
}
use talki_llm_admission_sche.Base.Int.{ℤ}
use talki_llm_admission_sche.Redis.Zset
use talki_llm_admission_sche.Redis.Zset.{Zset}

pub length-insert : (e : ℤ × String) (z : Zset) → length (Zset.insert e z) ≡ suc (length z)
length-insert e [] = refl
length-insert e (x ∷ z) = ground (arith, length-insert e z)

pub length-remove : (m : String) (z : Zset) → length (Zset.remove m z) ≤ length z
length-remove m [] = omega arith
length-remove m ((s, n) ∷ z) = ground (arith, length-remove m z)

-- Adding a member makes the set larger by one at most.
pub length-add : (s : ℤ) (m : String) (z : Zset) → length (Zset.add s m z) ≤ suc (length z)
length-add s m z = omega (arith, length-insert (s, m) (Zset.remove m z), length-remove m z)

pub remove_absent : (m : String) (z : Zset) → Zset.has m z ≡ false → Zset.remove m z ≡ z
remove_absent m [] h = refl
remove_absent m ((x, n) ∷ z) h = ground (arith, remove_absent m z)

has-insert : (x : ℤ) (m : String) (z : Zset) → Zset.has m (Zset.insert (x, m) z) ≡ true
has-insert x m [] = ground (arith, eq_refl m)
has-insert x m (e ∷ z) = ground (arith, eq_refl m, has-insert x m z)

pub has-add : (x : ℤ) (m : String) (z : Zset) → Zset.has m (Zset.add x m z) ≡ true
has-add x m z = has-insert x m (Zset.remove m z)

pub has-remove : (m : String) (z : Zset) → Zset.has m (Zset.remove m z) ≡ false
has-remove m [] = refl
has-remove m ((x, n) ∷ z) = ground (arith, has-remove m z)

-- ===== src/Redis/Data.antt =====
-- What the scheduler keeps in Redis.
use talki_llm_admission_sche.Base.{ℕ, Bool, false, ◌||◌, Option, List, [], ◌∷◌, String, str_eq}
use talki_llm_admission_sche.Base.Int.{ℤ}
use talki_llm_admission_sche.Keys.{Key}
use talki_llm_admission_sche.Redis.Hash.{Fields}
use talki_llm_admission_sche.Redis.Zset.{Zset}

-- Membership of a plain set.
abbrev pub member : String → List String → Bool
member a [] = false
member a (b ∷ l) = str_eq b a || member a l

-- The data of the scheduler. `counters` and `strings` are the STRING keys that hold a number and
-- those that hold a text, `expires` the seconds to live that were set last, and `published` what
-- was sent on the job_done channels, the latest first.
pub record Keyspace : Type 0 where
  pub counters : Key → Option ℤ
  pub strings : Key → Option String
  pub hashes : Key → Fields
  pub zsets : Key → Zset
  pub sets : Key → List String
  pub expires : Key → Option ℕ
  pub published : List (String × String)

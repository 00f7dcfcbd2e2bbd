-- ===== src/Orchestrator/Budget.antt =====
-- orchestrator/budget.py: the tokens that a role may use in a day, counted in Redis, each command of which
-- may be refused or lost. A Redis of its own, by key the total (0 when there is no key) and whether the
-- key expires; that a key expires after 48 hours is not modelled.
pub mod Ledger
pub mod Refinement
pub mod Calls
use talki_llm_admission_sche.Base.{
  ℕ, ◌==◌, Bool, true, false, Option, none, some, codes, ◌++◌, if◌then◌else◌,
}
use talki_llm_admission_sche.Base.Int.{ℤ, pos, ◌+ℤ◌, ◌-ℤ◌, ltb_ℤ}
use talki_llm_admission_sche.Orchestrator.Text.{Text, same_text}

-- How a command ends: it is done; or there is RedisConnectionError or RedisTimeoutError, and it was not
-- done; or there is one of these and it was done.
pub data Fate : Type 0 where
  done refused lost : Fate

pub record Store : Type 0 where
  pub total : Text → ℤ
  pub expires : Text → Bool

abbrev pub put {ℓ} : {A : Type ℓ} → (Text → A) → Text → A → Text → A
put f key a k = if same_text k key then a else f k

abbrev pub raised : Store → Text → ℤ → Store
raised st key n = record { total = put st.total key (st.total key +ℤ n); expires = st.expires }

-- INCRBY, and the new total if there is an answer
unfoldable pub incrby : Fate → Text → ℤ → Store → Option ℤ × Store
unfolding same_text
incrby done key n st = (some (st.total key +ℤ n), raised st key n)
incrby refused key n st = (none, st)
incrby lost key n st = (none, raised st key n)

abbrev pub expiring : Store → Text → Store
expiring st key = record { total = st.total; expires = put st.expires key true }

-- EXPIRE, and whether there is an answer
unfoldable pub expire : Fate → Text → Store → Bool × Store
unfolding same_text
expire done key st = (true, expiring st key)
expire refused key st = (false, st)
expire lost key st = (false, expiring st key)

-- `_key`, with the date in ISO format
abbrev pub token_key : Text → Text → Text
token_key role_name iso = codes "kola:tokens:" ++ role_name ++ codes ":" ++ iso

pub record Reservation : Type 0 where
  pub key : Text
  pub reserved : ℕ

-- A reservation, or BudgetExceeded or BudgetUnavailable.
pub data Granting : Type 0 where
  granted : Reservation → Granting
  exceeded unavailable : Granting

-- The comparison with the cap, and the rollback, whose failure is passed over.
abbrev pub by_total : Fate → Text → ℤ → ℕ → ℤ → Store → Granting × Store
by_total f key cap expected new_total st = elim (ltb_ℤ cap new_total) [
  | true ↦ (exceeded, (incrby f key (pos 0 -ℤ pos expected) st).1)
  | false ↦ (granted (record { key = key; reserved = expected }), st)
]

abbrev pub by_expiry : Fate → Text → ℤ → ℕ → ℤ → Bool × Store → Granting × Store
by_expiry f key cap expected new_total (true, st) = by_total f key cap expected new_total st
by_expiry f key cap expected new_total (false, st) = (unavailable, st)

abbrev pub by_increment : Fate → Fate → Text → ℤ → ℕ → Option ℤ × Store → Granting × Store
by_increment f g key cap expected (none, st) = (unavailable, st)
by_increment f g key cap expected (some new_total, st) =
    by_expiry g key cap expected new_total (expire f key st)

-- `check_and_reserve`, by how its commands end
unfoldable pub check_and_reserve : Fate → Fate → Fate → Text → ℤ → ℕ → Store → Granting × Store
unfolding incrby expire
check_and_reserve f g h key cap expected st =
    by_increment g h key cap expected (incrby f key (pos expected) st)

-- `commit`
unfoldable pub commit : Fate → Reservation → ℕ → Store → Store
unfolding incrby
commit f r actual st = elim (actual == r.reserved) [
  | true ↦ st
  | false ↦ (incrby f r.key (pos actual -ℤ pos r.reserved) st).1
]

-- `remaining`
unfoldable pub remaining : Text → ℤ → Store → ℤ
remaining key cap st = cap -ℤ st.total key

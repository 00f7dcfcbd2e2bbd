-- ===== src/Keys.antt =====
-- app/storage/redis_keys.py: the keys of the scheduler. A key is kept as the function that names
-- it and that function's argument; `render` is the text that Redis is given.
pub mod Injective
pub mod Equality
use talki_llm_admission_sche.Base.{ℕ, List, ◌++◌, Bool, false, String, str_eq, codes, if◌then◌else◌}

pub data Key : Type 0 where
  slots_in_use slots_capacity queue job idem lease inflight dlq seq : String → Key

unfoldable pub render : Key → List ℕ
render (slots_in_use model) = codes "slots:" ++ codes model ++ codes ":in_use"
render (slots_capacity model) = codes "slots:" ++ codes model ++ codes ":capacity"
render (queue model) = codes "queue:" ++ codes model
render (job job_id) = codes "job:" ++ codes job_id
render (idem sha256_hash) = codes "idem:" ++ codes sha256_hash
render (lease job_id) = codes "lease:" ++ codes job_id
render (inflight model) = codes "inflight:" ++ codes model
render (dlq model) = codes "dlq:" ++ codes model
render (seq model) = codes "seq:" ++ codes model

unfoldable pub job_done_channel : String → List ℕ
job_done_channel job_id = codes "job_done:" ++ codes job_id

-- Whether two keys are one.
abbrev pub key_eq : Key → Key → Bool
key_eq (slots_in_use a) (slots_in_use b) = str_eq a b
key_eq (slots_capacity a) (slots_capacity b) = str_eq a b
key_eq (queue a) (queue b) = str_eq a b
key_eq (job a) (job b) = str_eq a b
key_eq (idem a) (idem b) = str_eq a b
key_eq (lease a) (lease b) = str_eq a b
key_eq (inflight a) (inflight b) = str_eq a b
key_eq (dlq a) (dlq b) = str_eq a b
key_eq (seq a) (seq b) = str_eq a b
key_eq _ _ = false

-- A table of a function, with one entry changed.
abbrev pub update {ℓ} : {A : Type ℓ} → (Key → A) → Key → A → Key → A
update f k v j = if key_eq j k then v else f j

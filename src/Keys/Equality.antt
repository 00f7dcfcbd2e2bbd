-- ===== src/Keys/Equality.antt =====
-- Keys are compared by their function and argument.
use talki_llm_admission_sche.Base.{◌≡◌, ap, true, fun_ext, eq_iff, eq_refl, Bool-cases, inl, inr}
use talki_llm_admission_sche.Keys.{
  Key, slots_in_use, slots_capacity, queue, job, idem, lease, inflight, dlq, seq, key_eq, update,
}

pub eq_of_key_eq : (k j : Key) → key_eq k j ≡ true → k ≡ j
eq_of_key_eq (slots_in_use a) (slots_in_use b) h = ap slots_in_use ((eq_iff a b).0 h)
eq_of_key_eq (slots_capacity a) (slots_capacity b) h = ap slots_capacity ((eq_iff a b).0 h)
eq_of_key_eq (queue a) (queue b) h = ap queue ((eq_iff a b).0 h)
eq_of_key_eq (job a) (job b) h = ap job ((eq_iff a b).0 h)
eq_of_key_eq (idem a) (idem b) h = ap idem ((eq_iff a b).0 h)
eq_of_key_eq (lease a) (lease b) h = ap lease ((eq_iff a b).0 h)
eq_of_key_eq (inflight a) (inflight b) h = ap inflight ((eq_iff a b).0 h)
eq_of_key_eq (dlq a) (dlq b) h = ap dlq ((eq_iff a b).0 h)
eq_of_key_eq (seq a) (seq b) h = ap seq ((eq_iff a b).0 h)
eq_of_key_eq _ _ h = cc

pub key_eq_refl : (k : Key) → key_eq k k ≡ true
key_eq_refl (slots_in_use a) = eq_refl a
key_eq_refl (slots_capacity a) = eq_refl a
key_eq_refl (queue a) = eq_refl a
key_eq_refl (job a) = eq_refl a
key_eq_refl (idem a) = eq_refl a
key_eq_refl (lease a) = eq_refl a
key_eq_refl (inflight a) = eq_refl a
key_eq_refl (dlq a) = eq_refl a
key_eq_refl (seq a) = eq_refl a

-- Writing back what is there changes nothing.
pub update_self {ℓ} : {A : Type ℓ} (f : Key → A) (k : Key) → update f k (f k) ≡ f
update_self f k =
    fun_ext
      λ j. elim (Bool-cases (key_eq j k)) [ inl e ↦ rw (e, eq_of_key_eq j k e) | inr e ↦ rw e ]

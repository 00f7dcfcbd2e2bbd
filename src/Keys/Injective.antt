-- ===== src/Keys/Injective.antt =====
-- Keys and their texts (app/storage/redis_keys.py).
use mathlib.Core.List.{append_cancel_left, append_cancel_right}
use talki_llm_admission_sche.Base.{
  ℕ, ◌+◌, ◌*◌, ◌≡◌, sym, ap, ◌∙◌, List, ◌∷◌, ◌++◌, String, arith, codes, codes_inj, last_or,
  last_or-append,
}
use talki_llm_admission_sche.Keys.{
  Key, slots_in_use, slots_capacity, queue, job, idem, lease, inflight, dlq, seq, render,
}

-- The first two letters of a text, as one number.
abbrev initials : List ℕ → ℕ
initials (x ∷ y ∷ l) = x * 256 + y
initials _ = 0

after_prefix : (p : String) (a b : String) → codes p ++ codes a ≡ codes p ++ codes b → a ≡ b
after_prefix p a b h = codes_inj a b (append_cancel_left (codes p) _ _ h)

between :
    (p q : String) (a b : String)
    → codes p ++ (codes a ++ codes q) ≡ codes p ++ (codes b ++ codes q)
    → a ≡ b
between p q a b h =
    codes_inj a b (append_cancel_right _ _ (codes q) (append_cancel_left (codes p) _ _ h))

ends_in :
    (a : String) (y : ℕ) (ys : List ℕ)
    → last_or 0 (codes "slots:" ++ (codes a ++ y ∷ ys)) ≡ last_or y ys
ends_in a y ys = last_or-append b':' (codes a) y ys

-- The two counters of one prefix end in different letters.
in_use-ne-capacity : (a b : String) → render (slots_in_use a) ≡ render (slots_capacity b) → ⊥
unfolding render
in_use-ne-capacity a b h =
    let ends : ◌≡◌ {A = ℕ} b'e' b'y' =
      sym (ends_in a b':' (codes "in_use"))
      ∙ ap (last_or 0) h
      ∙ ends_in b b':' (codes "capacity") in
    absurd (omega arith)

-- Two keys that Redis is given as the same text are the same function of redis_keys.py at the same
-- argument, whatever characters the model names and job ids hold.
pub render_inj : (k j : Key) → render k ≡ render j → k ≡ j
unfolding render
render_inj (slots_in_use a) (slots_in_use b) h = ap slots_in_use (between "slots:" ":in_use" a b h)
render_inj (slots_capacity a) (slots_capacity b) h =
    ap slots_capacity (between "slots:" ":capacity" a b h)
render_inj (slots_in_use a) (slots_capacity b) h = absurd (in_use-ne-capacity a b h)
render_inj (slots_capacity a) (slots_in_use b) h = absurd (in_use-ne-capacity b a (sym h))
render_inj (queue a) (queue b) h = ap queue (after_prefix "queue:" a b h)
render_inj (job a) (job b) h = ap job (after_prefix "job:" a b h)
render_inj (idem a) (idem b) h = ap idem (after_prefix "idem:" a b h)
render_inj (lease a) (lease b) h = ap lease (after_prefix "lease:" a b h)
render_inj (inflight a) (inflight b) h = ap inflight (after_prefix "inflight:" a b h)
render_inj (dlq a) (dlq b) h = ap dlq (after_prefix "dlq:" a b h)
render_inj (seq a) (seq b) h = ap seq (after_prefix "seq:" a b h)
render_inj _ _ h = absurd (omega (arith, ap initials h))

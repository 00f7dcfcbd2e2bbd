-- ===== src/Orchestrator/Budget/Ledger.antt =====
-- The tokens of one role and one day, as many agents reserve and commit them at once: what the code's
-- commands do to them, and what is never exceeded.
use talki_llm_admission_sche.Base.{ℕ, ◌+◌, ◌-◌, leb, ◌≡◌, if◌then◌else◌, arith}
use talki_llm_admission_sche.Base.Int.{ℤ, pos, ◌+ℤ◌, ◌-ℤ◌, ◌≤ℤ◌, +ℤ_parts, -ℤ_parts}

-- The total of the key, the sum of the reservations that are granted and not committed, the tokens used
-- (each call's up to its reservation), what calls used beyond their reservations, and the sum of what
-- was added and not granted.
pub record Book : Type 0 where
  pub total : ℤ
  pub held : ℕ
  pub used : ℕ
  pub excess : ℕ
  pub over : ℕ

abbrev pub least : ℕ → ℕ → ℕ
least a b = if leb a b then a else b

-- One command of one agent.
pub data Step (limit : ℤ) : Book → Book → Type 0 where
  -- a reservation within the cap
  reserves :
      (b : Book) (n : ℕ)
      → (b.total +ℤ pos n) ≤ℤ limit
      → Step limit b (record b { total = b.total +ℤ pos n; held = n + b.held })
  -- an addition that is not granted, as it is beyond the cap or its answer or its expiry is missing
  adds :
      (b : Book) (n : ℕ) → Step limit b (record b { total = b.total +ℤ pos n; over = n + b.over })
  -- the rollback of one
  takes_back :
      (b : Book) (n o : ℕ)
      → b.over ≡ n + o
      → Step limit b (record b { total = b.total +ℤ (pos 0 -ℤ pos n); over = o })
  -- a commit that is done, and one that is not
  commits :
      (b : Book) (n h actual : ℕ)
      → b.held ≡ n + h
      → Step limit b (record b {
        total = b.total +ℤ (pos actual -ℤ pos n);
        held = h;
        used = b.used + least actual n;
        excess = b.excess + (actual - n);
      })
  forgets :
      (b : Book) (n h actual : ℕ)
      → b.held ≡ n + h
      → Step limit b
          (record b { held = h; used = b.used + least actual n; excess = b.excess + (actual - n) })

pub data Reach (limit : ℤ) : Book → Book → Type 0 where
  here : (b : Book) → Reach limit b b
  after : {a b c : Book} → Step limit a b → Reach limit b c → Reach limit a c

-- The total counts at least what is held, used and not granted; and what is held and used is within the
-- cap.
pub record IsKept (limit : ℤ) (b : Book) : Type 0 where
  pub counted : pos (b.held + b.used + b.over) ≤ℤ b.total
  pub within : pos (b.held + b.used) ≤ℤ limit

Step-IsKept : (limit : ℤ) {a b : Book} → Step limit a b → IsKept limit a → IsKept limit b
Step-IsKept limit (reserves b n h) k = record {
  counted = ground (arith, +ℤ_parts b.total (pos n), k.counted);
  within = ground (arith, +ℤ_parts b.total (pos n), k.counted, h);
}
Step-IsKept limit (adds b n) k = record {
  counted = ground (arith, +ℤ_parts b.total (pos n), k.counted);
  within = k.within;
}
Step-IsKept limit (takes_back b n o e) k = record {
  counted =
      ground (arith, +ℤ_parts b.total (pos 0 -ℤ pos n), -ℤ_parts (pos 0) (pos n), k.counted, e);
  within = k.within;
}
Step-IsKept limit (commits b n h actual e) k = record {
  counted =
      ground (
        arith,
        +ℤ_parts b.total (pos actual -ℤ pos n),
        -ℤ_parts (pos actual) (pos n),
        k.counted,
        e,
      );
  within = ground (arith, k.within, e);
}
Step-IsKept limit (forgets b n h actual e) k = record {
  counted = ground (arith, k.counted, e);
  within = ground (arith, k.within, e);
}

-- However the reservations, rollbacks and commits of agents interleave, and whichever of them Redis
-- refuses or loses: if at first the total counts what is held and used and this is within the cap, then
-- so it is ever after. What the calls use is beyond the limit at most by what they use beyond their
-- reservations.
pub reach-IsKept : (limit : ℤ) {a b : Book} → Reach limit a b → IsKept limit a → IsKept limit b
reach-IsKept limit (here b) k = k
reach-IsKept limit (after s r) k = reach-IsKept limit r (Step-IsKept limit s k)

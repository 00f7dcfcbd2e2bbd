-- ===== src/EventLog/Turns.antt =====
-- What becomes of the events, whatever the turns of the callers and of the writer.
use mathlib.Core.List.{append_assoc}
use talki_llm_admission_sche.Base.{
  ℕ, ◌+◌, ◌≤◌, ◌≡◌, refl, ap, inl, inr, false, Bool-cases, List, [], ◌∷◌, ◌++◌, map, length,
  length-append, arith,
}
use talki_llm_admission_sche.EventLog.{Event}
use talki_llm_admission_sche.EventLog.Writer.{
  Item, event, sentinel, Disk, Logger, new_logger, is_full, emit_event, put_sentinel, take,
  writer_turn, cancel_writer,
}
use talki_llm_admission_sche.EventLog.Delivery.{IsDated, Settled, write_event-Settled}

-- What the callers and the writer do, in any order: an event is emitted, `stop` puts its sentinel or gives up, or the
-- writer takes a turn.
pub data Turn : Type 0 where
  emitting : Event → Turn
  stopping giving_up writing : Turn

abbrev pub turn : Disk → Turn → Logger → Logger
turn disk (emitting e) s = emit_event e s
turn disk stopping s = put_sentinel s
turn disk giving_up s = cancel_writer s
turn disk writing s = writer_turn disk s

-- After the turns, the latest first.
abbrev pub turns : Disk → ℕ → List Turn → Logger
turns disk size [] = new_logger size
turns disk size (t ∷ ts) = turn disk t (turns disk size ts)

-- The events that were emitted, the latest first.
abbrev pub emitted : List Turn → List Event
emitted [] = []
emitted (emitting e ∷ ts) = e ∷ emitted ts
emitted (stopping ∷ ts) = emitted ts
emitted (giving_up ∷ ts) = emitted ts
emitted (writing ∷ ts) = emitted ts

-- The events of the queue, the latest first.
abbrev pub waiting : List Item → List Event
waiting [] = []
waiting (event e ∷ q) = waiting q ++ (e ∷ [])
waiting (sentinel ∷ q) = waiting q

-- The first list, with others between its elements, is the second.
pub data Within {A : Type 0} : List A → List A → Type 0 where
  done : Within [] []
  keep : {xs ys : List A} (x : A) → Within xs ys → Within (x ∷ xs) (x ∷ ys)
  skip : {xs ys : List A} (y : A) → Within xs ys → Within xs (y ∷ ys)

module _ {A : Type 0} where
  Within-refl : (xs : List A) → Within xs xs
  Within-refl [] = done
  Within-refl (x ∷ xs) = keep x (Within-refl xs)

  Within-trans : {ys zs : List A} → Within ys zs → {xs : List A} → Within xs ys → Within xs zs
  Within-trans done h = h
  Within-trans (keep y k) (keep x h) = keep y (Within-trans k h)
  Within-trans (keep y k) (skip x h) = skip y (Within-trans k h)
  Within-trans (skip y k) h = skip y (Within-trans k h)

  Within-drop : (xs ys : List A) (x : A) → Within (xs ++ ys) (xs ++ x ∷ ys)
  Within-drop [] ys x = skip x (Within-refl ys)
  Within-drop (y ∷ xs) ys x = keep y (Within-drop xs ys x)

waiting-event : (q : List Item) (e : Event) → waiting (q ++ (event e ∷ [])) ≡ e ∷ waiting q
waiting-event [] e = refl
waiting-event (event d ∷ q) e = ap (λ w. w ++ (d ∷ [])) (waiting-event q e)
waiting-event (sentinel ∷ q) e = waiting-event q e

waiting-sentinel : (q : List Item) → waiting (q ++ (sentinel ∷ [])) ≡ waiting q
waiting-sentinel [] = refl
waiting-sentinel (event d ∷ q) = ap (λ w. w ++ (d ∷ [])) (waiting-sentinel q)
waiting-sentinel (sentinel ∷ q) = waiting-sentinel q

abbrev pub events : List (ℕ × Event) → List Event
events ls = map (λ l. l.1) ls

-- What the queue and the files hold, the latest first.
abbrev pub delivered : Logger → List Event
delivered s = waiting s.queue ++ events s.lines

-- The queue is within its bound, the events it holds and those in the files are emitted ones in their order, and the
-- others are counted.
pub record Accounts (es : List Event) (s : Logger) : Type 0 where
  pub dated : IsDated s
  pub bounded : 1 ≤ s.queue_size → length s.queue ≤ s.queue_size
  pub in_order : Within (delivered s) es
  pub counted : length es ≤ length s.lines + length (waiting s.queue) + s.errors

room : (s : Logger) → is_full s ≡ false → 1 ≤ s.queue_size → length s.queue + 1 ≤ s.queue_size
room s h b = ground arith

put-bounded :
    (s : Logger) (i : Item)
    → is_full s ≡ false
    → 1 ≤ s.queue_size
    → length (s.queue ++ (i ∷ [])) ≤ s.queue_size
put-bounded s i h b = omega (arith, length-append s.queue (i ∷ []), room s h b)

emit_event-Accounts :
    (es : List Event) (e : Event) (s : Logger) → Accounts es s → Accounts (e ∷ es) (emit_event e s)
unfolding emit_event
emit_event-Accounts es e s a = elim (Bool-cases (is_full s)) [
  | inl h ↦
      rw (h, emit_event)
        (record {
          dated = a.dated;
          bounded = a.bounded;
          in_order = skip e a.in_order;
          counted = omega (arith, a.counted);
        })
  | inr h ↦
      rw (h, emit_event)
        (record {
          dated = a.dated;
          bounded = put-bounded s (event e) h;
          in_order = rw (waiting-event s.queue e) (keep e a.in_order);
          counted = rw (waiting-event s.queue e) (omega (arith, a.counted));
        })
]

put_sentinel-Accounts :
    (es : List Event) (s : Logger) → Accounts es s → Accounts es (put_sentinel s)
unfolding put_sentinel
put_sentinel-Accounts es s a = elim (Bool-cases (is_full s)) [
  | inl h ↦ rw (h, put_sentinel) a
  | inr h ↦
      rw (h, put_sentinel)
        (record {
          dated = a.dated;
          bounded = put-bounded s sentinel h;
          in_order = rw (waiting-sentinel s.queue) a.in_order;
          counted = rw (waiting-sentinel s.queue) a.counted;
        })
]

module _ (disk : Disk) where
  -- The oldest event of the queue becomes the latest line, or is counted.
  taken :
      (today : ℕ) (es : List Event) (e : Event) (q : List Item) (s r : Logger)
      → Accounts es (record s { queue = event e ∷ q })
      → Settled today e (record s { queue = q }) r
      → Accounts es r
  taken today es e q s r a (same, st, size, dated, inl (ls, more)) = record {
    dated = dated;
    bounded = λ b. rw same (rw size (omega (arith, a.bounded (rw⁻¹ size b))));
    in_order = rw (same, ls) (rw⁻¹ (append_assoc (waiting q) (e ∷ []) (events s.lines)) a.in_order);
    counted = rw (same, ls) (omega (arith, a.counted, more, length-append (waiting q) (e ∷ [])));
  }
  taken today es e q s r a (same, st, size, dated, inr (ls, one)) = record {
    dated = dated;
    bounded = λ b. rw same (rw size (omega (arith, a.bounded (rw⁻¹ size b))));
    in_order =
        rw (same, ls)
          (Within-trans (rw⁻¹ (append_assoc (waiting q) (e ∷ []) (events s.lines)) a.in_order)
            (Within-drop (waiting q) (events s.lines) e));
    counted = rw (same, ls) (omega (arith, a.counted, one, length-append (waiting q) (e ∷ [])));
  }

  take-Accounts :
      (es : List Event) (s : Logger) (q : List Item)
      → Accounts es (record s { queue = q })
      → Accounts es (take disk q (record s { queue = q }))
  take-Accounts es s [] a = a
  take-Accounts es s (sentinel ∷ q) a = record {
    dated = a.dated;
    bounded = λ b. omega (arith, a.bounded b);
    in_order = a.in_order;
    counted = a.counted;
  }
  take-Accounts es s (event e ∷ q) a =
      taken (disk.today s.calls) es e q s _ a
        (write_event-Settled disk e (record s { queue = q }) a.dated)

  writer_turn-Accounts :
      (es : List Event) (s : Logger) → Accounts es s → Accounts es (writer_turn disk s)
  unfolding writer_turn
  writer_turn-Accounts es s a = elim (Bool-cases s.stopped) [
    | inl h ↦ rw (h, writer_turn) a
    | inr h ↦ rw (h, writer_turn) (take-Accounts es s s.queue a)
  ]

  cancel_writer-Accounts :
      (es : List Event) (s : Logger) → Accounts es s → Accounts es (cancel_writer s)
  cancel_writer-Accounts es s a = record {
    dated = a.dated;
    bounded = a.bounded;
    in_order = a.in_order;
    counted = a.counted;
  }

  -- Whatever the turns of the callers and of the writer, and whatever calls on files fail: the queue stays within its
  -- bound, unless that is 0; the events in the queue and in the files are emitted ones, each as often at most and in the
  -- order in which they were emitted; and there are at most as many others as errors counted.
  pub turns-Accounts : (size : ℕ) (ts : List Turn) → Accounts (emitted ts) (turns disk size ts)
  turns-Accounts size [] = record {
    dated = λ d no. absurd (cc);
    bounded = λ b. omega arith;
    in_order = done;
    counted = omega arith;
  }
  turns-Accounts size (emitting e ∷ ts) =
      emit_event-Accounts (emitted ts) e (turns disk size ts) (turns-Accounts size ts)
  turns-Accounts size (stopping ∷ ts) =
      put_sentinel-Accounts (emitted ts) (turns disk size ts) (turns-Accounts size ts)
  turns-Accounts size (giving_up ∷ ts) =
      cancel_writer-Accounts (emitted ts) (turns disk size ts) (turns-Accounts size ts)
  turns-Accounts size (writing ∷ ts) =
      writer_turn-Accounts (emitted ts) (turns disk size ts) (turns-Accounts size ts)

-- ===== src/EventLog/Delivery.antt =====
-- What the writing of one event does, on every outcome of the calls on files.
use talki_llm_admission_sche.Base.{
  ℕ, ◌+◌, ◌≤◌, ==_iff, ◌≡◌, refl, sym, ap, ◌∙◌, ◌⊎◌, inl, inr, Bool, true, false, Bool-cases,
  Option, none, some, ◌∷◌, arith,
}
use talki_llm_admission_sche.EventLog.{Event}
use talki_llm_admission_sche.EventLog.Writer.{
  Disk, Logger, needs_open, is_today, close_handle, open_file, ensure_file_open, write_line,
  then_write, recover, write_event,
}

-- The file that is open is that of the date that is kept.
abbrev pub IsDated : Logger → Type 0
IsDated s = (d : ℕ) → s.handle ≡ some d → s.current_date ≡ some d

-- The line of the event is the latest, in the file of the day, or one error more is counted.
abbrev pub LineOrError : ℕ → Event → Logger → Logger → Type 0
LineOrError today e s r =
    ((r.lines ≡ (today, e) ∷ s.lines) × (s.errors ≤ r.errors))
    ⊎ ((r.lines ≡ s.lines) × (r.errors ≡ s.errors + 1))

-- The event was written to the file of the day, or was counted as an error; nothing else was done to the events.
abbrev pub Settled : ℕ → Event → Logger → Logger → Type 0
Settled today e s r =
    (r.queue ≡ s.queue)
    × (r.stopped ≡ s.stopped)
    × (r.queue_size ≡ s.queue_size)
    × IsDated r
    × LineOrError today e s r

-- The file of the day is open, or the open has failed, and nothing else has changed.
abbrev Opened : ℕ → Logger → Bool × Logger → Type 0
Opened today s r =
    (r.1.queue ≡ s.queue)
    × (r.1.stopped ≡ s.stopped)
    × (r.1.queue_size ≡ s.queue_size)
    × (r.1.lines ≡ s.lines)
    × (r.1.errors ≡ s.errors)
    × (r.0 ≡ true → (r.1.handle ≡ some today) × (r.1.current_date ≡ some today))

module _ (disk : Disk) where
  open_file-Opened : (today : ℕ) (s : Logger) → Opened today s (open_file disk today s)
  open_file-Opened today s = elim (Bool-cases (disk.succeeds s.calls)) [
    | inl h ↦ rw (h, open_file) (refl, refl, refl, refl, refl, λ _. (refl, refl))
    | inr h ↦ rw (h, open_file) (refl, refl, refl, refl, refl, λ no. absurd (cc))
  ]

  close_handle-Opened :
      (today : ℕ) (s : Logger) (h : Option ℕ)
      → s.handle ≡ h
      → Opened today s (open_file disk today (close_handle disk s))
  close_handle-Opened today s none same = rw (same, close_handle) (open_file-Opened today s)
  close_handle-Opened today s (some d) same = elim (Bool-cases (disk.succeeds s.calls)) [
    | inl h ↦ rw (same, h, close_handle) (open_file-Opened today (record s { calls = s.calls + 2 }))
    | inr h ↦ rw (same, h, close_handle) (open_file-Opened today (record s { calls = s.calls + 1 }))
  ]

  same_day : (today : ℕ) (c : Option ℕ) → is_today c today ≡ true → c ≡ some today
  same_day today none h = absurd (cc)
  same_day today (some d) h = ap some ((==_iff d today).0 h)

  ensure_at :
      (today : ℕ) (s : Logger) (h : Option ℕ)
      → s.handle ≡ h
      → IsDated s
      → Opened today s (ensure_file_open disk today s)
  unfolding ensure_file_open
  ensure_at today s none same dated =
      rw (same, needs_open, ensure_file_open) (close_handle-Opened today s none same)
  ensure_at today s (some d) same dated = elim (Bool-cases (is_today s.current_date today)) [
    | inl h ↦
        let date = same_day today s.current_date h in
        rw (same, h, needs_open, ensure_file_open)
          (refl, refl, refl, refl, refl, λ _. (same ∙ sym (dated d same) ∙ date, date))
    | inr h ↦ rw (same, h, needs_open, ensure_file_open) (close_handle-Opened today s (some d) same)
  ]

  -- A write that the file of the day takes, or one that fails.
  written :
      (today : ℕ) (e : Event) (s : Logger)
      → s.handle ≡ some today
      → s.current_date ≡ some today
      → Settled today e s (recover (write_line disk e s))
  written today e s h c = elim (Bool-cases (disk.succeeds s.calls)) [
    | inl w ↦ elim (Bool-cases (disk.succeeds (s.calls + 1))) [
      | inl f ↦
          rw (w, f, h, write_line) (refl, refl, refl, (λ d hd. c ∙ hd), inl (refl, omega arith))
      | inr f ↦
          rw (w, f, h, write_line)
            (refl, refl, refl, (λ d no. absurd (cc)), inl (refl, omega arith))
    ]
    | inr w ↦ rw (w, write_line) (refl, refl, refl, (λ d no. absurd (cc)), inr (refl, refl))
  ]

  -- A write after the file is open, or after it could not be opened.
  after_open :
      (today : ℕ) (e : Event) (s : Logger) (r : Bool × Logger)
      → Opened today s r
      → Settled today e s (recover (then_write disk e r))
  after_open today e s (true, t) (q, st, size, ls, es, open_now) =
      let (h, c) = open_now refl in
      let (q', st', size', dated, rest) = written today e t h c in
      let out : LineOrError today e s (recover (write_line disk e t)) = elim rest [
        | inl w ↦ inl (w.0 ∙ ap (λ x. (today, e) ∷ x) ls, rw (sym es) w.1)
        | inr f ↦ inr (f.0 ∙ ls, f.1 ∙ ap (λ n. n + 1) es)
      ] in
      (q' ∙ q, st' ∙ st, size' ∙ size, dated, out)
  after_open today e s (false, t) (q, st, size, ls, es, open_now) =
      (q, st, size, (λ d no. absurd (cc)), inr (ls, ap (λ n. n + 1) es))

  -- An event of the queue, while the open file is that of the date that is kept: either it is the latest line, in the file of
  -- the day in UTC, or one error more is counted and no line is written; the open file is that of the date again.
  pub write_event-Settled :
      (e : Event) (s : Logger) → IsDated s → Settled (disk.today s.calls) e s (write_event disk e s)
  unfolding write_event
  write_event-Settled e s dated =
      after_open (disk.today s.calls) e s _ (ensure_at (disk.today s.calls) s s.handle refl dated)

-- ===== src/Tests/ServiceTests.antt =====
-- The writer of the event log at concrete inputs.
use talki_llm_admission_sche.Base.{◌≡◌, refl, true, false, ◌==◌, not, some, List, [], ◌∷◌}
use talki_llm_admission_sche.Redis.{text}
use talki_llm_admission_sche.EventLog.{Event}
use talki_llm_admission_sche.EventLog.Writer.{
  Disk, Logger, new_logger, emit_event, put_sentinel, writer_turn, write_event, ensure_file_open,
}
use talki_llm_admission_sche.EventLog.Delivery.{Settled, write_event-Settled}
use talki_llm_admission_sche.EventLog.Turns.{
  Turn, emitting, stopping, writing, turns, Accounts, turns-Accounts,
}

abbrev queued : Event
queued = ("event", text "queued") ∷ []

abbrev completed : Event
completed = ("event", text "completed") ∷ []

-- The third call on a file fails, and then it is another day.
abbrev disk : Disk
disk = record {
  today = λ n. elim (n == 0) [ true ↦ 20 | false ↦ 21 ];
  succeeds = λ n. not (n == 2);
}

-- Two events are emitted and written, the latest turn first.
abbrev day : List Turn
day = writing ∷ writing ∷ stopping ∷ emitting completed ∷ emitting queued ∷ []

turns-Accounts_example : Accounts (completed ∷ queued ∷ []) (turns disk 10 day)
turns-Accounts_example = turns-Accounts disk 10 day

-- A flush has failed, and the second event goes to the file of the next day.
day_lines : (turns disk 10 day).lines ≡ (21, completed) ∷ (20, queued) ∷ []
unfolding emit_event put_sentinel writer_turn write_event ensure_file_open
day_lines = refl

day_errors : (turns disk 10 day).errors ≡ 1
unfolding emit_event put_sentinel writer_turn write_event ensure_file_open
day_errors = refl

-- The file of the day before is open.
abbrev old_file : Logger
old_file = record (new_logger 10) { current_date = some 20; handle = some 20; calls = 3 }

write_event-Settled_example : Settled 21 queued old_file (write_event disk queued old_file)
write_event-Settled_example = write_event-Settled disk queued old_file (λ d h. h)

rotated : (write_event disk queued old_file).lines ≡ (21, queued) ∷ []
unfolding write_event ensure_file_open
rotated = refl

-- ===== src/EventLog/Writer.antt =====
-- app/observability/jsonl_logger.py: the bounded queue between `emit` and the writer, and the writer with its files. The
-- file of a day is known by the day; whether a call on a file succeeds, and what day it is, are arguments.
use talki_llm_admission_sche.Base.{
  ℕ, ◌+◌, ◌==◌, leb, ◌&&◌, Bool, true, false, Option, none, some, List, [], ◌∷◌, ◌++◌, length,
}
use talki_llm_admission_sche.EventLog.{Event}

-- What stands in the queue: an event, or None, by which the writer stops.
pub data Item : Type 0 where
  event : Event → Item
  sentinel : Item

-- The day in UTC and the outcome of a call on a file, by the number of the calls before.
pub record Disk : Type 0 where
  pub today : ℕ → ℕ
  pub succeeds : ℕ → Bool

-- `queue_size` is the bound of the queue, `handle` the day of the file that is open. `lines` has what was written,
-- each line with the day of its file, the latest first, `calls` counts the calls on files and `errors` is
-- log_write_errors_total.
pub record Logger : Type 0 where
  pub queue_size : ℕ
  pub queue : List Item
  pub current_date : Option ℕ
  pub handle : Option ℕ
  pub lines : List (ℕ × Event)
  pub calls : ℕ
  pub errors : ℕ
  pub stopped : Bool

-- JSONLLogger(log_dir, queue_size)
abbrev pub new_logger : ℕ → Logger
new_logger queue_size = record {
  queue_size = queue_size;
  queue = [];
  current_date = none;
  handle = none;
  lines = [];
  calls = 0;
  errors = 0;
  stopped = false;
}

-- `asyncio.Queue.full`, where a bound of 0 is no bound
abbrev pub is_full : Logger → Bool
is_full s = leb 1 s.queue_size && leb s.queue_size (length s.queue)

abbrev pub count_error : Logger → Logger
count_error s = record s { errors = s.errors + 1 }

abbrev pub put : Item → Logger → Logger
put i s = record s { queue = s.queue ++ (i ∷ []) }

-- `emit`
unfoldable pub emit_event : Event → Logger → Logger
emit_event e s = elim (is_full s) [ true ↦ count_error s | false ↦ put (event e) s ]

-- `await self._queue.put(None)` of `stop`, which waits while the queue is full
unfoldable pub put_sentinel : Logger → Logger
put_sentinel s = elim (is_full s) [ true ↦ s | false ↦ put sentinel s ]

abbrev pub is_today : Option ℕ → ℕ → Bool
is_today none today = false
is_today (some d) today = d == today

abbrev pub needs_open : Logger → ℕ → Bool
needs_open s today = elim s.handle [
  | none ↦ true
  | some d ↦ elim (is_today s.current_date today) [ true ↦ false | false ↦ true ]
]

-- The flush and the close of the file before, whose errors are ignored; no close follows a flush that fails.
abbrev pub close_handle : Disk → Logger → Logger
close_handle disk s = elim s.handle [
  | none ↦ s
  | some d ↦ elim (disk.succeeds s.calls) [
    | true ↦ record s { calls = s.calls + 2 }
    | false ↦ record s { calls = s.calls + 1 }
  ]
]

-- `open`, which sets the handle if it succeeds
abbrev pub open_file : Disk → ℕ → Logger → Bool × Logger
open_file disk today s = elim (disk.succeeds s.calls) [
  | true ↦ (true, record s { current_date = some today; handle = some today; calls = s.calls + 1 })
  | false ↦ (false, record s { current_date = some today; calls = s.calls + 1 })
]

-- `_ensure_file_open`: false is an OSError.
unfoldable pub ensure_file_open : Disk → ℕ → Logger → Bool × Logger
ensure_file_open disk today s = elim (needs_open s today) [
  | true ↦ open_file disk today (close_handle disk s)
  | false ↦ (true, s)
]

abbrev pub add_line : Option ℕ → Event → Logger → Logger
add_line none e s = s
add_line (some day) e s = record s { lines = (day, e) ∷ s.lines }

-- The write and the flush of a line: false is an OSError.
abbrev pub write_line : Disk → Event → Logger → Bool × Logger
write_line disk e s = elim (disk.succeeds s.calls) [
  | true ↦ (disk.succeeds (s.calls + 1), record (add_line s.handle e s) { calls = s.calls + 2 })
  | false ↦ (false, record s { calls = s.calls + 1 })
]

-- `except OSError`
abbrev pub recover : Bool × Logger → Logger
recover (true, s) = s
recover (false, s) = record (count_error s) { handle = none }

abbrev pub then_write : Disk → Event → Bool × Logger → Bool × Logger
then_write disk e (true, s) = write_line disk e s
then_write disk e (false, s) = (false, s)

-- `_write_event`
unfoldable pub write_event : Disk → Event → Logger → Logger
unfolding ensure_file_open
write_event disk e s = recover (then_write disk e (ensure_file_open disk (disk.today s.calls) s))

abbrev pub take : Disk → List Item → Logger → Logger
take disk [] s = s
take disk (event e ∷ q) s = write_event disk e (record s { queue = q })
take disk (sentinel ∷ q) s = record s { queue = q; stopped = true }

-- A turn of the loop of `_writer`; it waits while the queue is empty.
unfoldable pub writer_turn : Disk → Logger → Logger
unfolding write_event
writer_turn disk s = elim s.stopped [ true ↦ s | false ↦ take disk s.queue s ]

-- The end of `stop` when the writer has not ended in five seconds: it is cancelled.
abbrev pub cancel_writer : Logger → Logger
cancel_writer s = record s { stopped = true }

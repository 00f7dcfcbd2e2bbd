-- ===== src/Dispatcher.antt =====
-- app/core/dispatcher.py: DispatcherWorker, the task that serves the queue of one model.
mod Terminal
mod Loop
pub mod Progress
pub mod Final
pub mod Served
pub mod Outcome
pub mod Admitted
unfoldable pub use Terminal.*
unfoldable pub use Loop.*

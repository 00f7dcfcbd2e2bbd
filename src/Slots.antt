-- ===== src/Slots.antt =====
-- The bound on slots: the counter of slots in use against the capacity of a model, for the parts that
-- read or change the two.
pub mod Bound
pub mod Tasks
pub mod Repair
pub mod Reclaim
pub mod Requests
pub mod Admissions
pub mod System

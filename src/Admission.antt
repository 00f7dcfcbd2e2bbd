-- ===== src/Admission.antt =====
-- app/core/admission.py: AdmissionController, which both submission endpoints call.
-- The two results of uuid7() are arguments; JSON values are texts.
mod Score
mod Controller
pub mod Order
pub mod Submit
pub mod Outcomes
pub mod Writes
pub mod Depth
unfoldable pub use Score.*
unfoldable pub use Controller.*

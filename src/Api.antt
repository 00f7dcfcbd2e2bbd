-- ===== src/Api.antt =====
-- app/api/routes.py: the HTTP routes over the admission controller and the data in Redis.
pub mod Jobs
pub mod Completion
pub mod Submission
pub mod Laws
pub mod Waiting
pub mod Status
pub mod ReadOnly

-- ===== src/Redis.antt =====
-- The Redis server, which is not part of the repository: the commands that the scheduler sends, and
-- the documented answer and effect of each. A server is a parameter of the model, and a theorem
-- that needs a server to do as documented takes that as a hypothesis, `IsRedis`.
pub mod Hash
pub mod Zset
pub mod Size
mod Data
mod Commands
mod Client
pub mod Keeps
pub mod Ensures
pub use Hash.{Fields}
pub use Data.*
pub use Commands.*
pub use Client.*

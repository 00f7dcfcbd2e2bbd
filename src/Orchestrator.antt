-- ===== src/Orchestrator.antt =====
-- The orchestrator of the agent team (orchestrator/): the rules of its charter, the token budgets, and
-- the agents.
pub mod Text
pub mod Glob
pub mod Charter
pub mod Labels
pub mod Roles
pub mod Llm
pub mod Triage
pub mod Actions
pub mod Ceo
pub mod Backend
pub mod Budget
pub mod Json
pub mod Extract
pub mod Worktree
pub mod Github
pub mod Daemon

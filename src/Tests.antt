-- ===== src/Tests.antt =====
-- Runs of the model on concrete inputs, and the theorems at inputs that meet their hypotheses.
mod Data
mod AdmissionTests
mod SlotsTests
mod ApiTests
mod OrchestratorTests
mod AgentTests
mod DispatchTests
mod ServiceTests
mod DaemonTests

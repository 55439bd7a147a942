-- ===== src/Orchestrator/Service.antt =====
-- internal/orchestrator/service.go: the operations of the service, one module for each group.
pub mod Create
pub mod Related
pub mod Signals
pub mod Repair
pub mod Protocol
pub mod Status
pub mod Calls
mod Tests

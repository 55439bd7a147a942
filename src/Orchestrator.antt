-- ===== src/Orchestrator.antt =====
-- internal/orchestrator: the handoff protocol.
pub mod Types
pub mod Actors
pub mod Completion
pub mod Machine
pub mod Replay
pub mod Projection
mod Tests
pub mod Records
pub mod Table
pub mod Action
pub mod Store
pub mod Events
pub mod Service

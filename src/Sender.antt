-- ===== src/Sender.antt =====
-- The Telegram sender of the repository's root package: jobs, their store, the worker that delivers
-- them and the service that accepts them.
pub mod Timestamps
pub mod Text
pub mod Store
pub mod RuntimeState
pub mod Worker
pub mod Submit
pub mod Queries
pub mod Requests
mod Tests

-- ===== src/Saga.antt =====
-- The saga orchestrator of exchange-service (internal/service/saga_orchestrator.go, saga_faults.go,
-- saga_retry.go) over its rows (internal/models/saga.go, internal/repository/saga_repository.go).
mod Types
mod Repository
mod Orchestrator
mod Run
mod Retry
pub mod Writes
pub mod Undo
pub mod Unrecovered
pub mod Endings
pub mod Atomicity
pub mod AtomicRun
pub mod Recovery
pub mod RetryKeeps
pub mod RetryLaws
mod Tests
unfoldable pub use Types.*
unfoldable pub use Repository.*
unfoldable pub use Orchestrator.*
unfoldable pub use Run.*
unfoldable pub use Retry.*

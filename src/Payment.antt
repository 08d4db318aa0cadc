-- ===== src/Payment.antt =====
-- payment-service: payments between RSD accounts, verified by a code (internal/service/
-- payment_service.go, internal/repository, internal/models).
mod Types
mod Repository
mod Service
mod Requests
pub mod Accounts
pub mod Settlement
pub mod Transfer
pub mod Once
pub mod Success
pub mod Verification
mod Tests
unfoldable pub use Types.*
unfoldable pub use Repository.*
unfoldable pub use Requests.*
unfoldable pub use Service.*

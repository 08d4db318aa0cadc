-- ===== src/Interbank.antt =====
-- The settlement of OTC options between banks (exchange-service/internal/interbank).
pub mod Messages
pub mod Models
pub mod Wallet
pub mod Acceptance
pub mod Terms
pub mod Processor
pub mod Totals
pub mod Steps
pub mod Bodies
pub mod Backing
pub mod Sequences
pub mod Agreement
pub mod Answers
pub mod Ready
pub mod Restores
pub mod Commits
pub mod Finality
pub mod Balance
mod Tests

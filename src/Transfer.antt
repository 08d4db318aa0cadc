-- ===== src/Transfer.antt =====
-- transfer-service: transfers between two accounts of one client, exchanged through the bank's own
-- accounts (internal/service/transfer_service.go, internal/repository, internal/models).
pub mod Types
pub mod Repository
pub mod Settlement
pub mod Service
pub mod Totals
pub mod Writes
pub mod Conserved
pub mod Settled
pub mod Conservation
pub mod Pricing
pub mod Whole
pub mod Refused
mod Tests

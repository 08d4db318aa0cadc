-- ===== src/Cards.antt =====
-- Cards of account-service: issuing, blocking and deactivation (account-service/internal/service/
-- card_service.go, internal/repository/card_repo.go, internal/models/card.go).
pub mod Types
pub mod Service
pub mod Counts
pub mod Limits
pub mod Sequences
pub mod Deactivated
mod Tests

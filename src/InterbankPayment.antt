-- ===== src/InterbankPayment.antt =====
-- Direct payments between banks (exchange-service/internal/interbank/payment_tx_processor.go,
-- internal/handler/interbank_payment_http_handler.go, internal/service/interbank_reconcile.go).
pub mod Models
pub mod Wallet
pub mod Shape
pub mod Receiver
pub mod RoundTrip
pub mod Sender
pub mod Books
pub mod Keeps
pub mod Created
pub mod Operations
pub mod Finalised
pub mod Recorded
pub mod Ledger
pub mod Sequences
pub mod Protocol
pub mod Views
pub mod Follows
pub mod Refinement
pub mod Initiator
pub mod Network
pub mod Settles
pub mod Requests
pub mod Paid
pub mod Pending
pub mod Agreement
mod Tests

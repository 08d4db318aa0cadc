-- ===== src/Numbers.antt =====
-- The numbers that account-service gives out (internal/util): account numbers with a digit-sum check
-- and card numbers with a Luhn check digit.
pub mod Digits
pub mod CardNumber
pub mod AccountNumber
pub mod Luhn
pub mod Checksum
mod Tests

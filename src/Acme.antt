-- ===== src/Acme.antt =====
-- src/acme.rs: the challenges that are being answered, the pause after a failed issuance, the first
-- issuance, one order and the account.
pub mod Challenges
pub mod Backoff
pub mod Background
pub mod Issuance
pub mod Account

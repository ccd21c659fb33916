-- ===== src/Store.antt =====
-- internal/store
pub mod Base
pub mod Saving
pub mod Passport
pub mod UsePassport
pub mod Steps
pub mod Changes
pub mod Outbox
pub mod Listing
pub mod Members
pub mod Experiments
pub mod Idempotency

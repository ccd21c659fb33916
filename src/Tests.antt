-- ===== src/Tests.antt =====
-- Runs of the modelled operations at concrete inputs.
mod Fixtures
mod Codec
mod Passports
mod Idempotent
mod Idempotency
mod Outbox
mod Service
mod Release
mod Audit
mod Conflict
mod Queue
mod Members
mod Remediation

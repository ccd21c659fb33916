-- ===== src/Service.antt =====
-- internal/service
pub mod Access
pub mod Findings
pub mod Review
pub mod Queue
pub mod Issue
pub mod Gate
pub mod Remediation
pub mod Idempotent

-- ===== src/Changegate.antt =====
-- internal/changegate
pub mod Rules
pub mod Token

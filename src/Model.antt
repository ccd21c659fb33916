-- ===== src/Model.antt =====
-- internal/model: the data that the service, the store and the gate share.
pub mod Status
pub mod Types
pub mod Records
pub mod Error
pub use Types.*
pub use Records.*
pub use Error.*

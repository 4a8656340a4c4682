-- ===== src/Chain.antt =====
-- What the chain shows to quote-service/: its types and its fixed keys.
mod Types
mod Keys
pub use Types.*
pub use Keys.*

-- ===== src/Session.antt =====
-- src/session: the record of a conversation on disk, read back.
pub mod Records
pub mod Projection
pub mod Usage
mod Examples

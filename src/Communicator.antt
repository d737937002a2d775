-- ===== src/Communicator.antt =====
-- src/communicator: the process that owns the session and its two children.
pub mod State
pub mod Store
pub mod Spawning
pub mod Messages
pub mod Core

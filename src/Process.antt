-- ===== src/Process.antt =====
-- The process model of src/process.
pub mod Lifecycle
pub mod Envelope
pub mod Inbound
pub mod Channel
mod Examples

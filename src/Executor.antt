-- ===== src/Executor.antt =====
-- The Executor process of src/executor.
pub mod Injection
pub mod Mailbox
pub mod Compaction
pub mod SlashCommand
pub mod Coalescer
pub mod Agent
mod Examples

-- ===== src/Supervisor.antt =====
-- The Supervisor process of src/supervisor.
pub mod PhaseSince
pub mod Watchdog
pub mod Memory
pub mod Review
pub mod ReviewText
pub mod Reviewer
mod Examples

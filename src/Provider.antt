-- ===== src/Provider.antt =====
-- The model providers of src/providers.
pub mod Retry
mod Examples

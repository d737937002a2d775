-- ===== src/Tools.antt =====
-- The tools of src/tools.
pub mod Edit
mod Examples

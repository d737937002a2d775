-- ===== src/Harness.antt =====
-- The control layer of src/harness: descriptors, the gate and the plugs behind it.
pub mod Descriptor
pub mod Gate
pub mod Plugs
pub mod Approval
mod Examples

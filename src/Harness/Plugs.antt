-- ===== src/Harness/Plugs.antt =====
-- The plugs of src/harness/plugs.
pub mod KeyShapes
pub mod CommandLine
pub mod Denylist
pub mod Paths
pub mod LocalGuards

-- ===== src/Executor/Agent/Orderly.antt =====
-- What holds of the agent whatever comes in.
pub mod Running
pub mod Rounds
use hera_v.Shared.Text.{Text}
use hera_v.Executor.Agent.State.{Agent}

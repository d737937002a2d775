-- ===== src/Process/Envelope.antt =====
-- src/process/envelope.ts: the message types and the envelope. The schemas of the payloads are
-- zod's; a payload is left as its text, but for the number that an `ack` refers to.
use hera_v.Shared.{ℕ, String, Bool, true, false}
use hera_v.Shared.Text.{Text}

pub data MessageType : Type 0 where
  hello ack heartbeat session_open prompt cancel continue ask_user answer event inject resolve
        resume restart_request debug_line shutdown halt halted admit_result :
      MessageType

pub data ProcId : Type 0 where
  comm exec sup : ProcId

pub record IpcMessage : Type 0 where
  pub id : ℕ
  pub from : ProcId
  pub to : ProcId
  pub type : MessageType
  pub run_ctx : String
  pub seq : ℕ
  pub ref : ℕ  -- `payload.ref` of an `ack`
  pub payload : Text

-- `CONTROL_TYPES` of src/process/ipc.ts.
unfoldable pub is_control : MessageType → Bool
is_control halt = true
is_control admit_result = true
is_control resolve = true
is_control ack = true
is_control _ = false

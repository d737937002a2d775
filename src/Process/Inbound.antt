-- ===== src/Process/Inbound.antt =====
-- src/process/ipc.ts: the inbound queue with its two lanes.
-- While a message is handled, further ones may come in: `arrivals` says which. The loops of `drain`
-- run on fuel; none means that it ran out.
use hera_v.Shared.{
  ℕ, zero, suc, ◌+◌, Bool, true, false, Option, none, some, List, [], ◌∷◌, ◌++◌, if◌then◌else◌, leb,
  length, drop,
}
use hera_v.Process.Envelope.{IpcMessage, is_control}
pub mod Lanes
pub mod Draining

pub record InboundQueue : Type 0 where
  pub control : List IpcMessage
  pub display : List IpcMessage
  pub display_dropped : ℕ
  pub processing : Bool
  pub display_max : ℕ
  pub handled : List IpcMessage  -- what the handler was called with, in order

unfoldable pub new_queue : ℕ → InboundQueue
new_queue display_max = record {
  control = [];
  display = [];
  display_dropped = 0;
  processing = false;
  display_max = display_max;
  handled = [];
}

-- `display.shift()` and `displayDropped++` when the lane is full.
abbrev make_room : InboundQueue → InboundQueue
make_room q =
    if leb q.display_max (length q.display)
    then record q { display = drop 1 q.display; display_dropped = q.display_dropped + 1 }
    else q

abbrev push_display : IpcMessage → InboundQueue → InboundQueue
push_display msg q = record q { display = q.display ++ msg ∷ [] }

-- A drain is scheduled unless one is: `processing`.
unfoldable pub enqueue : IpcMessage → InboundQueue → InboundQueue
unfolding is_control
enqueue msg q =
    let q' =
      if is_control msg.type
      then record q { control = q.control ++ msg ∷ [] }
      else push_display msg (make_room q) in
    record q' { processing = true }

unfoldable pub enqueue_all : List IpcMessage → InboundQueue → InboundQueue
unfolding enqueue
enqueue_all [] q = q
enqueue_all (msg ∷ msgs) q = enqueue_all msgs (enqueue msg q)

module _ (arrivals : IpcMessage → List IpcMessage) where
  -- A handler that throws is reported, and the loop goes on.
  unfoldable pub handle : IpcMessage → InboundQueue → InboundQueue
  unfolding enqueue_all
  handle msg q = enqueue_all (arrivals msg) (record q { handled = q.handled ++ msg ∷ [] })

  unfoldable pub drain_control : ℕ → InboundQueue → Option InboundQueue
  unfolding handle
  drain_control zero q = none
  drain_control (suc fuel) q = elim q.control [
    | [] ↦ some q
    | msg ∷ msgs ↦ drain_control fuel (handle msg (record q { control = msgs }))
  ]

  abbrev shift_display : InboundQueue → InboundQueue
  shift_display q = elim q.display [
    | [] ↦ q
    | msg ∷ msgs ↦ handle msg (record q { display = msgs })
  ]

  -- New control messages go before the next display message.
  unfoldable pub drain_display : ℕ → InboundQueue → Option InboundQueue
  unfolding drain_control
  drain_display zero q = none
  drain_display (suc fuel) q = elim q.display [
    | [] ↦ some q
    | msg ∷ msgs ↦ elim (drain_control (suc fuel) q) [
      | none ↦ none
      | some q' ↦ drain_display fuel (shift_display q')
    ]
  ]

  unfoldable pub drain : ℕ → InboundQueue → Option InboundQueue
  unfolding drain_control drain_display
  drain fuel q = elim (drain_control fuel (record q { processing = false })) [
    | none ↦ none
    | some q' ↦ drain_display fuel q'
  ]

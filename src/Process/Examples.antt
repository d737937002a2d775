-- ===== src/Process/Examples.antt =====
-- Small runs of the process model: restarts, a shutdown, the two lanes and a channel.
use hera_v.Shared.{
  ◌==◌, ℕ, ◌+◌, ◌≡◌, refl, Bool, true, false, none, some, List, [], ◌∷◌, ◌++◌, arith,
}
use hera_v.Shared.Text.{codes}
use hera_v.Process.Envelope.{
  MessageType, hello, ack, prompt, event, resolve, comm, exec, IpcMessage,
}
use hera_v.Process.Lifecycle.{
  RestartBudget, ShutdownTarget, executor, supervisor, order_targets, shutdown_all,
}
use hera_v.Process.Lifecycle.Shutdown.{overdue_roles, survivors_of, shutdown_all-report}
use hera_v.Process.Inbound.{InboundQueue, enqueue_all, drain}
use hera_v.Process.Inbound.Lanes.{display_of, last_of, enqueue_all-newest}
use hera_v.Process.Inbound.Draining.{drain_quiet}
use hera_v.Process.Channel.{
  IpcChannel, new_channel, close, Op, sending, sending_await, incoming, run,
}
use hera_v.Process.Channel.Acks.{ended, waiting, opened, promises_end_once}

abbrev budget : RestartBudget
budget = record {
  per_turn_max = 2;
  idle_max = 3;
  idle_window_ms = 60000;
  turn_used = 2;
  idle_exit_times = [];
}

abbrev targets : List ShutdownTarget
targets =
    record { role = supervisor; alive = true; exit = none; last_children = [] }
    ∷ record { role = executor; alive = true; exit = some (some 0); last_children = 41 ∷ 42 ∷ [] }
    ∷ []

abbrev gone_41 : ℕ → Bool
gone_41 pid = pid == 41

shutdown_all-report_example :
    let result = (shutdown_all gone_41 gone_41 targets).0 in
    (result.killed ≡ overdue_roles (order_targets targets))
    × (result.orphans_survived ≡ survivors_of gone_41 gone_41 (order_targets targets))
shutdown_all-report_example = shutdown_all-report gone_41 gone_41 targets

abbrev message : MessageType → ℕ → IpcMessage
message type ref = record {
  id = ref;
  from = exec;
  to = comm;
  type = type;
  run_ctx = "";
  seq = 0;
  ref = ref;
  payload = codes "{}";
}

abbrev queue : InboundQueue
queue = record {
  control = [];
  display = message event 1 ∷ message event 2 ∷ [];
  display_dropped = 0;
  processing = false;
  display_max = 2;
  handled = [];
}

abbrev burst : List IpcMessage
burst = message event 3 ∷ message resolve 4 ∷ message event 5 ∷ []

enqueue_all-newest_example :
    (enqueue_all burst queue).display ≡ last_of 2 (queue.display ++ display_of burst)
enqueue_all-newest_example = enqueue_all-newest burst queue (omega arith) (omega arith)

drain_quiet_example :
    drain (λ msg. []) 3 queue
    ≡ some (record queue {
      control = [];
      display = [];
      processing = false;
      handled = [] ++ [] ++ queue.display;
    })
drain_quiet_example = drain_quiet (λ msg. []) 3 queue (λ msg. refl) (omega arith) (omega arith)

abbrev ops : List Op
ops =
    sending_await prompt 0 (codes "{}") exec
    ∷ incoming (some (message ack 1))
    ∷ sending hello 0 (codes "{}") exec
    ∷ []

promises_end_once_example :
    let (ch, outputs) = run ops (new_channel comm exec) in
    let (closed, rejections) = close ch in
    let made = opened 1 ops (new_channel comm exec) in
    (ended 1 outputs + waiting 1 ch.pending + waiting 1 ch.unlisted ≡ made)
    × (ended 1 rejections ≡ waiting 1 ch.pending)
    × (ended 1 outputs + ended 1 rejections + waiting 1 closed.unlisted ≡ made)
promises_end_once_example = promises_end_once 1 ops comm exec

abbrev channel : IpcChannel
channel = record {
  self = comm;
  peer = exec;
  next_id = 7;
  seq = 6;
  run_ctx = "";
  inbound_count = 0;
  relayed = 0;
  pending = [];
  unlisted = [];
  unmatched_acks = 2 ∷ [];
  closed = false;
  queue = queue;
}

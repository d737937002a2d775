-- ===== src/Process/Channel.antt =====
-- src/process/ipc.ts: the channel, its message ids and its acknowledgements.
-- Promises are named by the id of the message that they wait for; how they end is part of the
-- output. A second waiter for an id takes the first one's place in the map; the first still has its
-- timer, which takes away whatever stands under the id when it fires: `unlisted` are the promises
-- that wait for their timer alone. Counters by type and latencies are left out.
use hera_v.Shared.{
  ℕ, zero, suc, ◌+◌, String, Bool, true, false, not, ◌&&◌, Option, none, some, List, [], ◌∷◌, ◌++◌,
  if◌then◌else◌, ltb, ◌==◌, length, drop, any, keep_if, is_some,
}
use hera_v.Shared.Text.{Text}
use hera_v.Process.Envelope.{IpcMessage, MessageType, ProcId, ack}
use hera_v.Process.Inbound.{InboundQueue, new_queue, enqueue}
pub mod Acks
pub mod Ids

pub record IpcChannel : Type 0 where
  pub self : ProcId
  pub peer : ProcId
  pub next_id : ℕ
  pub seq : ℕ
  pub run_ctx : String
  pub inbound_count : ℕ
  pub relayed : ℕ
  pub pending : List (ℕ × ℕ)  -- id, and `inboundAtSend`
  pub unlisted : List (ℕ × ℕ)
  pub unmatched_acks : List ℕ
  pub closed : Bool
  pub queue : InboundQueue

-- What the channel does: a message goes to the transport, a promise ends, raw input is refused.
pub data Output : Type 0 where
  transport : IpcMessage → Output
  resolved : ℕ → Output
  rejected : ℕ → Bool → Output  -- AckTimeout, with `otherTrafficSeen`
  refused : Output

unfoldable pub new_channel : ProcId → ProcId → IpcChannel
unfolding new_queue
new_channel self peer = record {
  self = self;
  peer = peer;
  next_id = 1;
  seq = 0;
  run_ctx = "";
  inbound_count = 0;
  relayed = 0;
  pending = [];
  unlisted = [];
  unmatched_acks = [];
  closed = false;
  queue = new_queue 1000;
}

unfoldable pub waiter : ℕ → List (ℕ × ℕ) → Option ℕ
waiter id [] = none
waiter id ((k, at) ∷ pending) = if k == id then some at else waiter id pending

unfoldable pub remove_waiter : ℕ → List (ℕ × ℕ) → List (ℕ × ℕ)
remove_waiter id [] = []
remove_waiter id ((k, at) ∷ pending) =
    if k == id then pending else (k, at) ∷ remove_waiter id pending

-- `Map.set` keeps the place of a key that is set again.
unfoldable pub set_waiter : ℕ → ℕ → List (ℕ × ℕ) → List (ℕ × ℕ)
set_waiter id now [] = (id, now) ∷ []
set_waiter id now ((k, at) ∷ pending) =
    if k == id then (k, now) ∷ pending else (k, at) ∷ set_waiter id now pending

-- A promise that is no more in the map.
abbrev pub unlist : ℕ → Option ℕ → List (ℕ × ℕ) → List (ℕ × ℕ)
unlist id none unlisted = unlisted
unlist id (some at) unlisted = unlisted ++ (id, at) ∷ []

abbrev pub is_promise : ℕ → ℕ → ℕ × ℕ → Bool
is_promise id at p = p.0 == id && p.1 == at

unfoldable pub remove_promise : ℕ → ℕ → List (ℕ × ℕ) → List (ℕ × ℕ)
remove_promise id at [] = []
remove_promise id at (p ∷ promises) =
    if is_promise id at p then promises else p ∷ remove_promise id at promises

abbrev pub in_set : ℕ → List ℕ → Bool
in_set id = any (λ k. k == id)

abbrev pub remove_id : ℕ → List ℕ → List ℕ
remove_id id = keep_if (λ k. not (k == id))

-- `unmatchedAcks.add(ref)`, and the oldest goes when there are more than 1000.
unfoldable pub remember_ack : ℕ → List ℕ → List ℕ
remember_ack ref acks =
    let acks' = if in_set ref acks then acks else acks ++ ref ∷ [] in
    if ltb 1000 (length acks') then drop 1 acks' else acks'

abbrev is_ack : MessageType → Bool
is_ack ack = true
is_ack _ = false

on_ack : ℕ → IpcChannel → IpcChannel × List Output
unfolding waiter remove_waiter remember_ack
on_ack ref ch =
    if is_some (waiter ref ch.pending)
    then (record ch { pending = remove_waiter ref ch.pending }, resolved ref ∷ [])
    else (record ch { unmatched_acks = remember_ack ref ch.unmatched_acks }, [])

-- A message that passed `validate`.
accept : IpcMessage → IpcChannel → IpcChannel × List Output
unfolding on_ack enqueue
accept msg ch =
    let counted = record ch { inbound_count = ch.inbound_count + 1 } in
    let (ch', outputs) = if is_ack msg.type then on_ack msg.ref counted else (counted, []) in
    (record ch' { queue = enqueue msg ch'.queue }, outputs)

-- `dispatch`: none is raw input that `validate` refuses.
unfoldable pub dispatch : Option IpcMessage → IpcChannel → IpcChannel × List Output
unfolding accept
dispatch raw ch =
    if ch.closed
    then (ch, [])
    else elim raw [ none ↦ (ch, refused ∷ []) | some msg ↦ accept msg ch ]

abbrev make_message : MessageType → ℕ → Text → ProcId → IpcChannel → IpcMessage
make_message type ref payload to ch = record {
  id = ch.next_id;
  from = ch.self;
  to = to;
  type = type;
  run_ctx = ch.run_ctx;
  seq = ch.seq;
  ref = ref;
  payload = payload;
}

unfoldable pub send : MessageType → ℕ → Text → ProcId → IpcChannel → IpcChannel × List Output
send type ref payload to ch = (
  record ch { next_id = ch.next_id + 1; seq = ch.seq + 1 },
  transport (make_message type ref payload to ch) ∷ [],
)

-- `awaitAck`: an ack that came in before is taken; else a waiter is registered.
unfoldable pub await_ack : ℕ → IpcChannel → IpcChannel × List Output
unfolding waiter set_waiter
await_ack id ch =
    if in_set id ch.unmatched_acks
    then (record ch { unmatched_acks = remove_id id ch.unmatched_acks }, resolved id ∷ [])
    else (
      record ch {
        pending = set_waiter id ch.inbound_count ch.pending;
        unlisted = unlist id (waiter id ch.pending) ch.unlisted;
      },
      [],
    )

unfoldable pub send_await_ack :
    MessageType → ℕ → Text → ProcId → IpcChannel → IpcChannel × List Output
unfolding await_ack
send_await_ack type ref payload to ch =
    let counted = record ch { next_id = ch.next_id + 1; seq = ch.seq + 1 } in
    let (ch', outputs) = await_ack ch.next_id counted in
    (ch', outputs ++ transport (make_message type ref payload to ch) ∷ [])

-- The timer of a waiter fires.
unfoldable pub ack_timeout : ℕ → IpcChannel → IpcChannel × List Output
unfolding waiter remove_waiter
ack_timeout id ch = elim (waiter id ch.pending) [
  | none ↦ (ch, [])
  | some at ↦ (
    record ch { pending = remove_waiter id ch.pending },
    rejected id (ltb at ch.inbound_count) ∷ [],
  )
]

-- The timer of a promise fires that is no more in the map.
unfoldable pub unlisted_timeout : ℕ → ℕ → IpcChannel → IpcChannel × List Output
unfolding waiter remove_waiter remove_promise
unlisted_timeout id at ch =
    if any (is_promise id at) ch.unlisted
    then (
      record ch {
        pending = remove_waiter id ch.pending;
        unlisted = unlist id (waiter id ch.pending) (remove_promise id at ch.unlisted);
      },
      rejected id (ltb at ch.inbound_count) ∷ [],
    )
    else (ch, [])

unfoldable pub relay : IpcMessage → IpcChannel → IpcChannel × List Output
relay msg ch = (record ch { relayed = ch.relayed + 1 }, transport msg ∷ [])

unfoldable pub set_run_ctx : String → IpcChannel → IpcChannel
set_run_ctx ctx ch = record ch { run_ctx = ctx }

abbrev reject_all : List (ℕ × ℕ) → List Output
reject_all [] = []
reject_all ((id, at) ∷ pending) = rejected id false ∷ reject_all pending

unfoldable pub close : IpcChannel → IpcChannel × List Output
close ch = (record ch { closed = true; pending = [] }, reject_all ch.pending)

pub data Op : Type 0 where
  incoming : Option IpcMessage → Op
  sending : MessageType → ℕ → Text → ProcId → Op
  sending_await : MessageType → ℕ → Text → ProcId → Op
  awaiting : ℕ → Op
  expiring : ℕ → Op
  expiring_unlisted : ℕ → ℕ → Op
  relaying : IpcMessage → Op
  closing : Op

unfoldable pub step : Op → IpcChannel → IpcChannel × List Output
unfolding dispatch send send_await_ack await_ack ack_timeout unlisted_timeout relay close
step (incoming raw) ch = dispatch raw ch
step (sending type ref payload to) ch = send type ref payload to ch
step (sending_await type ref payload to) ch = send_await_ack type ref payload to ch
step (awaiting id) ch = await_ack id ch
step (expiring id) ch = ack_timeout id ch
step (expiring_unlisted id at) ch = unlisted_timeout id at ch
step (relaying msg) ch = relay msg ch
step closing ch = close ch

unfoldable pub run : List Op → IpcChannel → IpcChannel × List Output
unfolding step
run [] ch = (ch, [])
run (op ∷ ops) ch =
    let (ch', outputs) = step op ch in let (ch'', more) = run ops ch' in (ch'', outputs ++ more)

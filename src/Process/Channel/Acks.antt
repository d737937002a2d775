-- ===== src/Process/Channel/Acks.antt =====
-- How the promises of the acknowledgements end.
use hera_v.Shared.{
  any, ℕ, suc, ◌+◌, ◌≤◌, ◌<◌, ◌≡◌, refl, true, false, ◌||◌, Option, none, some, List, [], ◌∷◌, ◌++◌,
  arith, if◌then◌else◌, is_some, length, length-append, length-drop, ◌==◌, drop,
}
use hera_v.Process.Envelope.{IpcMessage, ProcId, ack}
use hera_v.Process.Channel.{
  IpcChannel, Output, transport, resolved, rejected, Op, incoming, sending, sending_await, awaiting,
  expiring, relaying, closing, step, run, reject_all, waiter, remove_waiter, set_waiter, unlist,
  is_promise, remove_promise, expiring_unlisted, unlisted_timeout, in_set, remember_ack, dispatch,
  await_ack, on_ack, accept, ack_timeout, make_message, close, new_channel,
}

module _ (id : ℕ) where
  abbrev pub waiting : List (ℕ × ℕ) → ℕ
  waiting [] = 0
  waiting ((k, at) ∷ pending) = if k == id then suc (waiting pending) else waiting pending

  abbrev pub ended : List Output → ℕ
  ended [] = 0
  ended (resolved k ∷ outputs) = if k == id then suc (ended outputs) else ended outputs
  ended (rejected k other ∷ outputs) = if k == id then suc (ended outputs) else ended outputs
  ended (_ ∷ outputs) = ended outputs

  -- The operation makes a promise for the acknowledgement of this id.
  abbrev pub opens : Op → IpcChannel → ℕ
  opens (awaiting k) ch = if k == id then 1 else 0
  opens (sending_await type ref payload to) ch = if ch.next_id == id then 1 else 0
  opens _ ch = 0

  abbrev pub opened : List Op → IpcChannel → ℕ
  opened [] ch = 0
  opened (op ∷ ops) ch = opens op ch + opened ops (step op ch).0

  ended-append : (xs ys : List Output) → ended (xs ++ ys) ≡ ended xs + ended ys
  ended-append [] ys = omega arith
  ended-append (resolved k ∷ xs) ys = ground (arith, ended-append xs ys)
  ended-append (rejected k other ∷ xs) ys = ground (arith, ended-append xs ys)
  ended-append (_ ∷ xs) ys = ended-append xs ys

  ended-reject_all : (pending : List (ℕ × ℕ)) → ended (reject_all pending) ≡ waiting pending
  ended-reject_all [] = refl
  ended-reject_all ((k, at) ∷ pending) = ground (arith, ended-reject_all pending)

  -- One promise of the id.
  abbrev one : ℕ → ℕ
  one k = if k == id then 1 else 0

  abbrev found : ℕ → Option ℕ → ℕ
  found k none = 0
  found k (some at) = one k

  waiting-remove_waiter :
      (k : ℕ) (pending : List (ℕ × ℕ))
      → waiting (remove_waiter k pending) + found k (waiter k pending) ≡ waiting pending
  unfolding remove_waiter waiter
  waiting-remove_waiter k [] = omega arith
  waiting-remove_waiter k ((j, at) ∷ pending) = ground (arith, waiting-remove_waiter k pending)

  waiting-set_waiter :
      (k now : ℕ) (pending : List (ℕ × ℕ))
      → waiting (set_waiter k now pending) + found k (waiter k pending) ≡ waiting pending + one k
  unfolding set_waiter waiter
  waiting-set_waiter k now [] = ground arith
  waiting-set_waiter k now ((j, at) ∷ pending) = ground (arith, waiting-set_waiter k now pending)

  waiting-append : (xs ys : List (ℕ × ℕ)) → waiting (xs ++ ys) ≡ waiting xs + waiting ys
  waiting-append [] ys = omega arith
  waiting-append ((k, at) ∷ xs) ys = ground (arith, waiting-append xs ys)

  waiting-unlist :
      (k : ℕ) (o : Option ℕ) (unlisted : List (ℕ × ℕ))
      → waiting (unlist k o unlisted) ≡ waiting unlisted + found k o
  waiting-unlist k none unlisted = omega arith
  waiting-unlist k (some at) unlisted = ground (arith, waiting-append unlisted ((k, at) ∷ []))

  waiting-remove_promise :
      (k at : ℕ) (promises : List (ℕ × ℕ))
      → any (is_promise k at) promises ≡ true
      → waiting (remove_promise k at promises) + one k ≡ waiting promises
  unfolding remove_promise
  waiting-remove_promise k at [] h = cc
  waiting-remove_promise k at ((j, a) ∷ promises) h =
      ground (arith, waiting-remove_promise k at promises)

  -- The promises of this id that have not ended.
  abbrev left : IpcChannel → ℕ
  left ch = waiting ch.pending + waiting ch.unlisted

  -- Each promise of this id that there was or that is made waits still or ends now.
  abbrev Balanced : ℕ → IpcChannel → IpcChannel × List Output → Type 0
  Balanced made ch (ch', outputs) = ended outputs + left ch' ≡ left ch + made

  on_ack-Balanced : (ref : ℕ) (ch : IpcChannel) → Balanced 0 ch (on_ack ref ch)
  unfolding on_ack
  on_ack-Balanced ref ch = ground (arith, waiting-remove_waiter ref ch.pending)

  accept-Balanced : (msg : IpcMessage) (ch : IpcChannel) → Balanced 0 ch (accept msg ch)
  unfolding accept
  accept-Balanced msg ch =
      ground (arith, on_ack-Balanced msg.ref (record ch { inbound_count = ch.inbound_count + 1 }))

  dispatch-Balanced : (raw : Option IpcMessage) (ch : IpcChannel) → Balanced 0 ch (dispatch raw ch)
  unfolding dispatch
  dispatch-Balanced none ch = ground arith
  dispatch-Balanced (some msg) ch = ground (arith, accept-Balanced msg ch)

  await_ack-Balanced : (k : ℕ) (ch : IpcChannel) → Balanced (one k) ch (await_ack k ch)
  unfolding await_ack
  await_ack-Balanced k ch = ground (
    arith,
    waiting-set_waiter k ch.inbound_count ch.pending,
    waiting-unlist k (waiter k ch.pending) ch.unlisted,
  )

  ack_timeout-Balanced : (k : ℕ) (ch : IpcChannel) → Balanced 0 ch (ack_timeout k ch)
  unfolding ack_timeout
  ack_timeout-Balanced k ch = ground (arith, waiting-remove_waiter k ch.pending)

  unlisted_timeout-Balanced :
      (k at : ℕ) (ch : IpcChannel) → Balanced 0 ch (unlisted_timeout k at ch)
  unfolding unlisted_timeout
  unlisted_timeout-Balanced k at ch = ground (
    arith,
    waiting-remove_waiter k ch.pending,
    waiting-remove_promise k at ch.unlisted,
    waiting-unlist k (waiter k ch.pending) (remove_promise k at ch.unlisted),
  )

  step-Balanced : (op : Op) (ch : IpcChannel) → Balanced (opens op ch) ch (step op ch)
  unfolding step
  step-Balanced (incoming raw) ch = dispatch-Balanced raw ch
  step-Balanced (sending type ref payload to) ch = omega arith
  step-Balanced (sending_await type ref payload to) ch =
      let counted = record ch { next_id = ch.next_id + 1; seq = ch.seq + 1 } in
      omega (
        arith,
        await_ack-Balanced ch.next_id counted,
        ended-append (await_ack ch.next_id counted).1
            (transport (make_message type ref payload to ch) ∷ []),
      )
  step-Balanced (awaiting k) ch = await_ack-Balanced k ch
  step-Balanced (expiring k) ch = ack_timeout-Balanced k ch
  step-Balanced (expiring_unlisted k at) ch = unlisted_timeout-Balanced k at ch
  step-Balanced (relaying msg) ch = omega arith
  step-Balanced closing ch = omega (arith, ended-reject_all ch.pending)

  run-Balanced : (ops : List Op) (ch : IpcChannel) → Balanced (opened ops ch) ch (run ops ch)
  unfolding run
  run-Balanced [] ch = omega arith
  run-Balanced (op ∷ ops) ch = omega (
    arith,
    step-Balanced op ch,
    run-Balanced ops (step op ch).0,
    ended-append (step op ch).1 (run ops (step op ch).0).1,
  )

-- Over any operations on a new channel, each promise that is made for the acknowledgement of a
-- message has ended once or waits still: in the map, or, where a later waiter for the same id took
-- its place or an earlier one's timer took it away, for its timer alone. A close ends exactly those in
-- the map, so that what waits then is what waits for its timer alone.
pub promises_end_once :
    (id : ℕ) (ops : List Op) (self peer : ProcId)
    → let (ch, outputs) = run ops (new_channel self peer) in
      let (closed, rejections) = close ch in
      let made = opened id ops (new_channel self peer) in
      (ended id outputs + waiting id ch.pending + waiting id ch.unlisted ≡ made)
      × (ended id rejections ≡ waiting id ch.pending)
      × (ended id outputs + ended id rejections + waiting id closed.unlisted ≡ made)
unfolding new_channel close
promises_end_once id ops self peer =
    let ch = (run ops (new_channel self peer)).0 in
    let balanced = run-Balanced id ops (new_channel self peer) in
    (
      omega (arith, balanced),
      ended-reject_all id ch.pending,
      omega (arith, balanced, ended-reject_all id ch.pending),
    )

in_set-append : (id : ℕ) (xs ys : List ℕ) → in_set id (xs ++ ys) ≡ (in_set id xs || in_set id ys)
in_set-append id [] ys = refl
in_set-append id (x ∷ xs) ys = ground (arith, in_set-append id xs ys)

length-remember_ack :
    (ref : ℕ) (acks : List ℕ) → length acks ≤ 1000 → length (remember_ack ref acks) ≤ 1000
unfolding remember_ack
length-remember_ack ref acks h =
    ground (arith, length-append acks (ref ∷ []), length-drop 1 (acks ++ ref ∷ []))

in_set-shift :
    (ref : ℕ) (acks : List ℕ) → 0 < length acks → in_set ref (drop 1 (acks ++ ref ∷ [])) ≡ true
in_set-shift ref [] h = absurd (omega arith)
in_set-shift ref (x ∷ acks) h = ground (arith, in_set-append ref acks (ref ∷ []))

in_set-remember_ack :
    (ref : ℕ) (acks : List ℕ) → length acks ≤ 1000 → in_set ref (remember_ack ref acks) ≡ true
unfolding remember_ack
in_set-remember_ack ref acks h =
    ground (
      arith,
      in_set-append ref acks (ref ∷ []),
      in_set-shift ref acks,
      length-append acks (ref ∷ []),
    )

remembered :
    (msg : IpcMessage) (ch : IpcChannel)
    → ch.closed ≡ false
    → msg.type ≡ ack
    → is_some (waiter msg.ref ch.pending) ≡ false
    → (dispatch (some msg) ch).0.unmatched_acks ≡ remember_ack msg.ref ch.unmatched_acks
unfolding dispatch accept on_ack
remembered msg ch open_now is_ack no_waiter = ground arith

-- On an open channel that remembers at most a thousand early acknowledgements, one that comes in
-- before anyone waits for it is not lost: the promise that is made next for its id ends at once,
-- and resolved.
pub early_ack :
    (msg : IpcMessage) (ch : IpcChannel)
    → ch.closed ≡ false
    → msg.type ≡ ack
    → waiter msg.ref ch.pending ≡ none
    → length ch.unmatched_acks ≤ 1000
    → (await_ack msg.ref (dispatch (some msg) ch).0).1 ≡ resolved msg.ref ∷ []
unfolding await_ack
early_ack msg ch open_now is_ack no_waiter few =
    ground (arith, remembered msg ch open_now is_ack, in_set-remember_ack msg.ref ch.unmatched_acks)

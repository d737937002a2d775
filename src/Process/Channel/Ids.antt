-- ===== src/Process/Channel/Ids.antt =====
-- The ids and sequence numbers of the messages that a channel sends.
use mathlib.Core.Path.{subst, subst₂}
use hera_v.Shared.{
  ℕ, ◌+◌, ◌≡◌, refl, sym, ap, Bool, true, false, none, some, List, [], ◌∷◌, ◌++◌, arith, All,
  length, length-append,
}
use hera_v.Process.Envelope.{IpcMessage}
use hera_v.Process.Channel.{
  IpcChannel, Output, transport, Op, incoming, sending, sending_await, awaiting, expiring,
  expiring_unlisted, relaying, closing, step, run, reject_all,
}

abbrev pub sent : List Output → List IpcMessage
sent [] = []
sent (transport msg ∷ outputs) = msg ∷ sent outputs
sent (_ ∷ outputs) = sent outputs

sent-append : (xs ys : List Output) → sent (xs ++ ys) ≡ sent xs ++ sent ys
sent-append [] ys = refl
sent-append (transport msg ∷ xs) ys = ap (λ l. msg ∷ l) (sent-append xs ys)
sent-append (_ ∷ xs) ys = sent-append xs ys

-- Ids and sequence numbers go up by one from message to message.
abbrev pub IsCounting : ℕ → ℕ → List IpcMessage → Type 0
IsCounting id seq [] = Unit
IsCounting id seq (msg ∷ msgs) =
    (msg.id ≡ id) × (msg.seq ≡ seq) × IsCounting (id + 1) (seq + 1) msgs

abbrev pub relays : Op → Bool
relays (relaying msg) = true
relays _ = false

-- The channel has counted on by the messages that it sent.
record Sends (ch ch' : IpcChannel) (msgs : List IpcMessage) : Type 0 where
  counting : IsCounting ch.next_id ch.seq msgs
  next_id : ch'.next_id ≡ ch.next_id + length msgs
  next_seq : ch'.seq ≡ ch.seq + length msgs

sent-reject_all : (pending : List (ℕ × ℕ)) → sent (reject_all pending) ≡ []
sent-reject_all [] = refl
sent-reject_all (p ∷ pending) = sent-reject_all pending

step-Sends :
    (op : Op) (ch : IpcChannel) → relays op ≡ false → Sends ch (step op ch).0 (sent (step op ch).1)
unfolding step
step-Sends (incoming none) ch r = ground arith
step-Sends (incoming (some msg)) ch r = ground arith
step-Sends (sending type ref payload to) ch r = ground arith
step-Sends (sending_await type ref payload to) ch r = ground arith
step-Sends (awaiting id) ch r = ground arith
step-Sends (expiring id) ch r = ground arith
step-Sends (expiring_unlisted id at) ch r = ground arith
step-Sends (relaying msg) ch r = cc
step-Sends closing ch r = ground (arith, sent-reject_all ch.pending)

recount :
    (ys : List IpcMessage) {i j s t : ℕ} → i ≡ j → s ≡ t → IsCounting i s ys → IsCounting j t ys
recount ys p q h = subst₂ (λ a b. IsCounting a b ys) p q h

IsCounting-append :
    (id seq : ℕ) (xs ys : List IpcMessage)
    → IsCounting id seq xs
    → IsCounting (id + length xs) (seq + length xs) ys
    → IsCounting id seq (xs ++ ys)
IsCounting-append id seq [] ys h k = recount ys (omega arith) (omega arith) k
IsCounting-append id seq (x ∷ xs) ys (p, q, h) k =
    (p, q, IsCounting-append (id + 1) (seq + 1) xs ys h (recount ys (omega arith) (omega arith) k))

run-Sends :
    (ops : List Op) (ch : IpcChannel)
    → All (λ op. relays op ≡ false) ops
    → Sends ch (run ops ch).0 (sent (run ops ch).1)
unfolding run
run-Sends [] ch h = ground arith
run-Sends (op ∷ ops) ch (r, h) =
    let ch' = (step op ch).0 in
    let first = step-Sends op ch r in
    let rest = run-Sends ops ch' h in
    let xs = sent (step op ch).1 in
    let ys = sent (run ops ch').1 in
    subst (Sends ch (run ops ch').0) (sym (sent-append (step op ch).1 (run ops ch').1)) (record {
      counting =
          IsCounting-append ch.next_id ch.seq xs ys first.counting
            (recount ys first.next_id first.next_seq rest.counting);
      next_id = omega (arith, rest.next_id, first.next_id, length-append xs ys);
      next_seq = omega (arith, rest.next_seq, first.next_seq, length-append xs ys);
    })

-- Over any operations that relay nothing, the messages that the channel sends carry consecutive
-- ids and consecutive sequence numbers, so no two of them share either.
run-IsCounting :
    (ops : List Op) (ch : IpcChannel)
    → All (λ op. relays op ≡ false) ops
    → IsCounting ch.next_id ch.seq (sent (run ops ch).1)
run-IsCounting ops ch h = (run-Sends ops ch h).counting

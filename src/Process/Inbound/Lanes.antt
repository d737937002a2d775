-- ===== src/Process/Inbound/Lanes.antt =====
-- What the two lanes hold after any messages came in.
use mathlib.Core.List.{append_assoc, append-nil}
use hera_v.Shared.{
  ℕ, suc, ◌+◌, ◌-◌, ◌≤◌, ◌<◌, ◌≡◌, refl, sym, ap, ◌∙◌, not, List, [], ◌∷◌, ◌++◌, arith,
  if◌then◌else◌, leb, length, length-append, length-drop, drop, keep_if,
}
use hera_v.Process.Envelope.{IpcMessage, is_control}
use hera_v.Process.Inbound.{InboundQueue, enqueue, enqueue_all}

abbrev pub control_of : List IpcMessage → List IpcMessage
control_of = keep_if (λ msg. is_control msg.type)

abbrev pub display_of : List IpcMessage → List IpcMessage
display_of = keep_if (λ msg. not (is_control msg.type))

enqueue-control :
    (msg : IpcMessage) (q : InboundQueue)
    → (enqueue msg q).control ≡ q.control ++ control_of (msg ∷ [])
unfolding enqueue
enqueue-control msg q = ground (arith, append-nil q.control)

control_of-append :
    (xs ys : List IpcMessage) → control_of (xs ++ ys) ≡ control_of xs ++ control_of ys
control_of-append [] ys = refl
control_of-append (x ∷ xs) ys = ground (arith, control_of-append xs ys)

-- However many messages come in, no control message is dropped: the lane holds all of them,
-- behind those that it held, in the order in which they came.
enqueue_all-control :
    (msgs : List IpcMessage) (q : InboundQueue)
    → (enqueue_all msgs q).control ≡ q.control ++ control_of msgs
unfolding enqueue_all
enqueue_all-control [] q = sym (append-nil q.control)
enqueue_all-control (msg ∷ msgs) q =
    enqueue_all-control msgs (enqueue msg q)
    ∙ ap (λ l. l ++ control_of msgs) (enqueue-control msg q)
    ∙ append_assoc q.control (control_of (msg ∷ [])) (control_of msgs)
    ∙ ap (λ l. q.control ++ l) (sym (control_of-append (msg ∷ []) msgs))

record Counts (msg : IpcMessage) (q q' : InboundQueue) : Type 0 where
  bounded : length q'.display ≤ q.display_max
  counted :
      q'.display_dropped + length q'.display
      ≡ q.display_dropped + length q.display + length (display_of (msg ∷ []))
  same_max : q'.display_max ≡ q.display_max

enqueue-Counts :
    (msg : IpcMessage) (q : InboundQueue)
    → 0 < q.display_max
    → length q.display ≤ q.display_max
    → Counts msg q (enqueue msg q)
unfolding enqueue
enqueue-Counts msg q pos h = record {
  bounded = ground (
    arith,
    length-append q.display (msg ∷ []),
    length-append (drop 1 q.display) (msg ∷ []),
    length-drop 1 q.display,
  );
  counted = ground (
    arith,
    length-append q.display (msg ∷ []),
    length-append (drop 1 q.display) (msg ∷ []),
    length-drop 1 q.display,
  );
  same_max = ground arith;
}

length-display_of :
    (msg : IpcMessage) (msgs : List IpcMessage)
    → length (display_of (msg ∷ msgs)) ≡ length (display_of (msg ∷ [])) + length (display_of msgs)
length-display_of msg msgs = ground arith

-- However many messages come in, a display lane within a limit above zero stays within it, and its
-- counter of drops is exact: what was dropped and what waits add up to what there was and what
-- came in.
enqueue_all-display :
    (msgs : List IpcMessage) (q : InboundQueue)
    → 0 < q.display_max
    → length q.display ≤ q.display_max
    → (length (enqueue_all msgs q).display ≤ q.display_max)
      × ((enqueue_all msgs q).display_dropped + length (enqueue_all msgs q).display
          ≡ q.display_dropped + length q.display + length (display_of msgs))
unfolding enqueue_all
enqueue_all-display [] q pos h = (h, omega arith)
enqueue_all-display (msg ∷ msgs) q pos h =
    let c = enqueue-Counts msg q pos h in
    let (bounded, counted) =
      enqueue_all-display msgs (enqueue msg q) (omega (arith, c.same_max))
        (omega (arith, c.same_max, c.bounded)) in
    (
      omega (arith, c.same_max, bounded),
      omega (arith, counted, c.counted, length-display_of msg msgs),
    )

-- The last `n` of a list.
abbrev pub last_of : ℕ → List IpcMessage → List IpcMessage
last_of n xs = drop (length xs - n) xs

drop-append_one :
    (d : List IpcMessage) (r : List IpcMessage) (k : ℕ)
    → 0 < length d
    → drop k (drop 1 d ++ r) ≡ drop (suc k) (d ++ r)
drop-append_one [] r k h = absurd (omega arith)
drop-append_one (x ∷ d) r k h = refl

last_of-few : (n : ℕ) (xs : List IpcMessage) → length xs ≤ n → last_of n xs ≡ xs
last_of-few n xs h = let e : length xs - n ≡ 0 = omega arith in ap (λ k. drop k xs) e

enqueue-display :
    (msg : IpcMessage) (q : InboundQueue)
    → (enqueue msg q).display ≡ (
        if is_control msg.type
        then q.display
        else if leb q.display_max (length q.display)
        then drop 1 q.display ++ msg ∷ []
        else q.display ++ msg ∷ [])
unfolding enqueue
enqueue-display msg q = ground arith

last_of-shift :
    (n : ℕ) (d s : List IpcMessage)
    → 0 < n
    → n ≤ length d
    → 0 < length s
    → last_of n (drop 1 d ++ s) ≡ last_of n (d ++ s)
last_of-shift n d s pos full some =
    let k = length (drop 1 d ++ s) - n in
    let next : suc k ≡ length (d ++ s) - n =
      omega (arith, length-append d s, length-append (drop 1 d) s, length-drop 1 d) in
    drop-append_one d s k (omega arith) ∙ ap (λ j. drop j (d ++ s)) next

step-last :
    (msg : IpcMessage) (q : InboundQueue) (r : List IpcMessage)
    → 0 < q.display_max
    → last_of q.display_max ((enqueue msg q).display ++ r)
      ≡ last_of q.display_max (q.display ++ display_of (msg ∷ []) ++ r)
step-last msg q r pos =
    ap (λ l. last_of q.display_max (l ++ r)) (enqueue-display msg q)
    ∙ ground (
      arith,
      append-nil q.display,
      append_assoc q.display (msg ∷ []) r,
      append_assoc (drop 1 q.display) (msg ∷ []) r,
      last_of-shift q.display_max q.display (msg ∷ r),
    )

display_of-append :
    (msg : IpcMessage) (msgs : List IpcMessage)
    → display_of (msg ∷ msgs) ≡ display_of (msg ∷ []) ++ display_of msgs
display_of-append msg msgs = ground arith

-- A display lane within a limit above zero keeps the newest messages: after any messages it is the
-- end of what it held and what came in, as long as its limit allows.
pub enqueue_all-newest :
    (msgs : List IpcMessage) (q : InboundQueue)
    → 0 < q.display_max
    → length q.display ≤ q.display_max
    → (enqueue_all msgs q).display ≡ last_of q.display_max (q.display ++ display_of msgs)
unfolding enqueue_all
enqueue_all-newest [] q pos h =
    sym (ap (last_of q.display_max) (append-nil q.display) ∙ last_of-few q.display_max q.display h)
enqueue_all-newest (msg ∷ msgs) q pos h =
    let c = enqueue-Counts msg q pos h in
    enqueue_all-newest msgs (enqueue msg q) (omega (arith, c.same_max))
      (omega (arith, c.same_max, c.bounded))
    ∙ ap (λ n. last_of n ((enqueue msg q).display ++ display_of msgs)) c.same_max
    ∙ step-last msg q (display_of msgs) pos
    ∙ ap (last_of q.display_max) (
        append_assoc q.display (display_of (msg ∷ [])) (display_of msgs)
        ∙ ap (λ l. q.display ++ l) (sym (display_of-append msg msgs)))

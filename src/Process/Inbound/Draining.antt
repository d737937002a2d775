-- ===== src/Process/Inbound/Draining.antt =====
-- What a drain hands to the handler.
use mathlib.Core.List.{append_assoc, append-nil}
use hera_v.Shared.{
  ℕ, zero, suc, ◌<◌, ◌≡◌, sym, ap, ◌∙◌, false, Option, none, some, List, [], ◌∷◌, ◌++◌, arith,
  length,
}
use hera_v.Process.Envelope.{IpcMessage}
use hera_v.Process.Inbound.{InboundQueue, handle, drain_control, drain_display, drain}

-- Nothing comes in while a message is handled.
abbrev pub IsQuiet : (IpcMessage → List IpcMessage) → Type 0
IsQuiet arrivals = (msg : IpcMessage) → arrivals msg ≡ []

module _ (arrivals : IpcMessage → List IpcMessage) (quiet : IsQuiet arrivals) where
  handle_quiet :
      (msg : IpcMessage) (q : InboundQueue)
      → handle arrivals msg q ≡ record q { handled = q.handled ++ msg ∷ [] }
  unfolding handle
  handle_quiet msg q = rw (quiet msg)

  drain_control_quiet :
      (fuel : ℕ) (c : List IpcMessage) (q : InboundQueue)
      → length c < fuel
      → drain_control arrivals fuel (record q { control = c })
        ≡ some (record q { control = []; handled = q.handled ++ c })
  unfolding drain_control
  drain_control_quiet zero c q h = absurd (omega arith)
  drain_control_quiet (suc fuel) [] q h =
      ap (λ l. some (record q { control = []; handled = l })) (sym (append-nil q.handled))
  drain_control_quiet (suc fuel) (msg ∷ c) q h =
      ap (drain_control arrivals fuel) (handle_quiet msg (record q { control = c }))
      ∙ drain_control_quiet fuel c (record q { handled = q.handled ++ msg ∷ [] }) (omega arith)
      ∙ ap (λ l. some (record q { control = []; handled = l }))
          (append_assoc q.handled (msg ∷ []) c)

  drain_display_quiet :
      (fuel : ℕ) (d : List IpcMessage) (q : InboundQueue)
      → length d < fuel
      → drain_display arrivals fuel (record q { control = []; display = d })
        ≡ some (record q { control = []; display = []; handled = q.handled ++ d })
  unfolding drain_display drain_control
  drain_display_quiet zero d q h = absurd (omega arith)
  drain_display_quiet (suc fuel) [] q h =
      ap (λ l. some (record q { control = []; display = []; handled = l }))
        (sym (append-nil q.handled))
  drain_display_quiet (suc fuel) (msg ∷ d) q h =
      ap (drain_display arrivals fuel) (handle_quiet msg (record q { control = []; display = d }))
      ∙ drain_display_quiet fuel d (record q { handled = q.handled ++ msg ∷ [] }) (omega arith)
      ∙ ap (λ l. some (record q { control = []; display = []; handled = l }))
          (append_assoc q.handled (msg ∷ []) d)

-- A drain during which nothing comes in ends within as many rounds as a lane has messages, hands
-- every control message to the handler and then every display message, each lane in its order,
-- and leaves both lanes empty.
pub drain_quiet :
    (arrivals : IpcMessage → List IpcMessage) (fuel : ℕ) (q : InboundQueue)
    → IsQuiet arrivals
    → length q.control < fuel
    → length q.display < fuel
    → drain arrivals fuel q
      ≡ some (record q {
        control = [];
        display = [];
        processing = false;
        handled = q.handled ++ q.control ++ q.display;
      })
unfolding drain
drain_quiet arrivals fuel q quiet few_control few_display =
    let q0 = record q { processing = false } in
    let q1 = record q0 { control = []; handled = q.handled ++ q.control } in
    ap
      (λ o. elim o as (λ x. Option InboundQueue) [
        | none ↦ none
        | some q' ↦ drain_display arrivals fuel q'
      ])
      (drain_control_quiet arrivals quiet fuel q.control q0 few_control)
    ∙ drain_display_quiet arrivals quiet fuel q.display q1 few_display

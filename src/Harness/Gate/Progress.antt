-- ===== src/Harness/Gate/Progress.antt =====
-- A call that waits for the user goes on when the decision is there.
use mathlib.Core.Path.{subst}
use hera_v.Shared.{
  String, ◌≡◌, refl, true, false, some, List, [], ◌∷◌, arith, eq_iff, eq_refl, sym, ap, ◌∙◌,
}
use hera_v.Shared.Text.{Text}
use hera_v.Harness.Descriptor.{verify_integrity}
use hera_v.Harness.Gate.{
  GateAnswer, allow, block, GateProvider, Call, waiting, woken, rerequested, dispatching, Gate,
  blocked_with, id_of, on_reanswer, Decision, Event, resume, reanswer, resolve, World, resume_call,
  resolve_call, on_phase, step, run, with_content,
}
use hera_v.Harness.Gate.Invariant.{Fits}

module _ (P : GateProvider) (w : World P) (e : String) (c : Call) (d : Decision) where
  -- The world after the decision, after the second request, and after its answer.
  abbrev decided_world : World P
  decided_world = step P (resolve e (some d)) w

  resolve_wakes :
      Fits e w.gate (w.phase e) → w.phase e ≡ waiting c → decided_world.phase e ≡ woken c
  unfolding step resolve_call
  resolve_wakes f i = ground (arith, eq_refl e, f.registered)

  resolve_keeps :
      (decided_world.gate.halted ≡ w.gate.halted)
      × (decided_world.plug ≡ P.resolve e (some d) w.plug)
  unfolding step resolve_call
  resolve_keeps = ground arith

module _ (P : GateProvider) (w : World P) (e : String) (c : Call) where
  resume_asks :
      id_of c ≡ e
      → w.gate.halted ≡ false
      → w.phase e ≡ woken c
      → (step P (resume e) w).phase e ≡ rerequested c (P.request c.descriptor w.plug).0
  unfolding step on_phase resume_call
  resume_asks name off i =
      subst
        (λ p. (on_phase P (resume e) p w).phase e ≡ rerequested c (P.request c.descriptor w.plug).0)
        (sym i) (ground (arith, eq_iff (id_of c) e, eq_refl e))

  reanswer_acts :
      (a : GateAnswer) (now : Text)
      → w.phase e ≡ rerequested c a
      → (step P (reanswer e now) w).phase e ≡ (on_reanswer (with_content now c) a w.gate).1
  unfolding step on_phase
  reanswer_acts a now i =
      subst
        (λ p.
          (on_phase P (reanswer e now) p w).phase e ≡ (on_reanswer (with_content now c) a w.gate).1)
        (sym i) (ground (arith, eq_refl e))

on_reanswer-allow :
    (c : Call) (g : Gate)
    → verify_integrity c.descriptor ≡ true
    → (on_reanswer c allow g).1 ≡ dispatching c
unfolding on_reanswer
on_reanswer-allow c g good = ground arith

on_reanswer-block :
    (c : Call) (reason : Text) (g : Gate)
    → (on_reanswer c (block reason) g).1 ≡ blocked_with reason false
unfolding on_reanswer
on_reanswer-block c reason g = refl

-- The events by which a decision of the user takes effect.
abbrev pub decision_events : String → Decision → Text → List Event
decision_events e d now = resolve e (some d) ∷ resume e ∷ reanswer e now ∷ []

module _ (P : GateProvider) (w : World P) (e : String) (c : Call) (d : Decision)
    (f : Fits e w.gate (w.phase e)) (waits : w.phase e ≡ waiting c)
    (off : w.gate.halted ≡ false) where
  decision_answer :
      (now : Text)
      → (g : Gate) × ((run P (decision_events e d now) w).phase e
          ≡ (on_reanswer
              (with_content now c)
              (P.request c.descriptor (P.resolve e (some d) w.plug)).0
              g).1)
  unfolding run
  decision_answer now =
      let name = (subst (Fits e w.gate) waits f).named in
      let (same_halt, same_plug) = resolve_keeps P w e c d in
      let w1 = step P (resolve e (some d)) w in
      let asked = resume_asks P w1 e c name (same_halt ∙ off) (resolve_wakes P w e c d f waits) in
      let w2 = step P (resume e) w1 in
      (
        w2.gate,
        reanswer_acts P w2 e c _ now
            (asked ∙ ap (λ s. rerequested c (P.request c.descriptor s).0) same_plug),
      )

  -- When the plug answers `allow` after the decision, the waiting call is dispatched.
  pub decision_dispatches :
      (P.request c.descriptor (P.resolve e (some d) w.plug)).0 ≡ allow
      → verify_integrity c.descriptor ≡ true
      → (run P (decision_events e d c.descriptor.content) w).phase e ≡ dispatching c
  decision_dispatches allowed good =
      let (g, acts) = decision_answer c.descriptor.content in
      acts ∙ ap (λ a. (on_reanswer c a g).1) allowed ∙ on_reanswer-allow c g good

  pub decision_blocks :
      (now reason : Text)
      → (P.request c.descriptor (P.resolve e (some d) w.plug)).0 ≡ block reason
      → (run P (decision_events e d now) w).phase e ≡ blocked_with reason false
  decision_blocks now reason denied =
      let (g, acts) = decision_answer now in
      acts
      ∙ ap (λ a. (on_reanswer (with_content now c) a g).1) denied
      ∙ on_reanswer-block (with_content now c) reason g

-- ===== src/Harness/Gate/Halt.antt =====
-- What a halt stops, and what it does not.
use mathlib.Core.Path.{subst}
use hera_v.Shared.{
  String, ◌≡◌, ◌≢◌, refl, true, Option, List, [], ◌∷◌, arith, eq_iff, eq_refl, if◌then◌else◌,
  Bool-cases, inl, inr, ◌∙◌, sym,
}
use hera_v.Shared.Dict.{has, str_eq}
use hera_v.Shared.Text.{codes}
use hera_v.Harness.Descriptor.{verify_integrity}
use hera_v.Harness.Gate.{
  GateAnswer, GateProvider, Call, Outcome, completed, failed, Phase, idle, requested, notifying,
  waiting, woken, rerequested, dispatching, reporting, Gate, blocked_with, id_of, on_answer,
  on_reanswer, on_outcome, wait_for_resolve, Decision, Event, start, answer, shown, resume,
  reanswer, finish, reported, resolve, halt, collect, wake, wake_all, World, start_call,
  resume_call, resolve_call, halt_gate, on_phase, subject, step, run, with_content,
}

-- A call that holds no answer of the plug to act on: it has not asked, waits, or has ended.
abbrev pub IsStopped : Phase → Type 0
IsStopped (requested c a) = ⊥
IsStopped (rerequested c a) = ⊥
IsStopped (dispatching c) = ⊥
IsStopped _ = Unit

on_answer-halted : (c : Call) (a : GateAnswer) (g : Gate) → (on_answer c a g).0.halted ≡ g.halted
unfolding on_answer
on_answer-halted c a g = ground arith

on_reanswer-halted :
    (c : Call) (a : GateAnswer) (g : Gate) → (on_reanswer c a g).0.halted ≡ g.halted
unfolding on_reanswer
on_reanswer-halted c a g = ground arith

on_outcome-halted : (c : Call) (o : Outcome) (g : Gate) → (on_outcome c o g).0.halted ≡ g.halted
unfolding on_outcome
on_outcome-halted c (completed status text) g = refl
on_outcome-halted c (failed message) g = refl

wait_for_resolve-halted : (c : Call) (g : Gate) → (wait_for_resolve c g).0.halted ≡ g.halted
unfolding wait_for_resolve
wait_for_resolve-halted c g = ground arith

module _ (P : GateProvider) where
  on_phase-halted :
      (ev : Event) (p : Phase) (w : World P)
      → w.gate.halted ≡ true
      → (on_phase P ev p w).gate.halted ≡ true
  unfolding on_phase
  on_phase-halted (start c) idle w h = ground arith
  on_phase-halted (answer e now) (requested c a) w h =
      on_answer-halted (with_content now c) a w.gate ∙ h
  on_phase-halted (shown e) (notifying c) w h = wait_for_resolve-halted c w.gate ∙ h
  on_phase-halted (resume e) (woken c) w h = ground arith
  on_phase-halted (reanswer e now) (rerequested c a) w h =
      on_reanswer-halted (with_content now c) a w.gate ∙ h
  on_phase-halted (finish e outcome) (dispatching c) w h = on_outcome-halted c outcome w.gate ∙ h
  on_phase-halted (reported e) (reporting c) w h = h
  on_phase-halted (resolve e decision) idle w h = h
  on_phase-halted (halt reason) idle w h = h
  on_phase-halted collect idle w h = h
  on_phase-halted _ _ w h = h

  step-halted : (ev : Event) (w : World P) → w.gate.halted ≡ true → (step P ev w).gate.halted ≡ true
  unfolding step
  step-halted (resolve e decision) w h = ground arith
  step-halted (halt reason) w h = refl
  step-halted collect w h = h
  step-halted ev w h = on_phase-halted ev (w.phase (subject P ev)) w h

module _ (P : GateProvider) (e : String) where
  put-IsStopped :
      (w : World P) (k : String) (p : Phase)
      → (k ≡ e → IsStopped p)
      → IsStopped (w.phase e)
      → IsStopped (if str_eq k e then p else w.phase e)
  put-IsStopped w k p here h = elim (Bool-cases (str_eq k e)) [
    | inl same ↦ rw same (here ((eq_iff k e).0 same))
    | inr other ↦ rw other h
  ]

  wake-IsStopped : (p : Phase) → IsStopped p → IsStopped (wake p)
  wake-IsStopped (waiting c) h = tt
  wake-IsStopped p h = h

  on_outcome-IsStopped : (c : Call) (o : Outcome) (g : Gate) → IsStopped (on_outcome c o g).1
  unfolding on_outcome
  on_outcome-IsStopped c (completed status text) g = tt
  on_outcome-IsStopped c (failed message) g = tt

  wait_for_resolve-IsStopped : (c : Call) (g : Gate) → IsStopped (wait_for_resolve c g).1
  unfolding wait_for_resolve
  wait_for_resolve-IsStopped c g = ground arith

  -- The phase of the call that an event is about is the one that the event fits.
  moving :
      (w : World P) (k : String) {p : Phase}
      → w.phase k ≡ p
      → IsStopped (w.phase e)
      → k ≡ e
      → IsStopped p
  moving w k i h same = subst IsStopped i (subst (λ x. IsStopped (w.phase x)) (sym same) h)

  start_call-IsStopped :
      (c : Call) (w : World P)
      → w.gate.halted ≡ true
      → IsStopped (w.phase e)
      → IsStopped ((start_call P c w).phase e)
  unfolding start_call
  start_call-IsStopped c w on h =
      ground
        (arith, put-IsStopped w (id_of c) (blocked_with (codes "gate: halted") true) (λ _. tt) h)

  resume_call-IsStopped :
      (c : Call) (w : World P)
      → w.gate.halted ≡ true
      → IsStopped (w.phase e)
      → IsStopped ((resume_call P c w).phase e)
  unfolding resume_call
  resume_call-IsStopped c w on h = ground (
    arith,
    put-IsStopped w (id_of c) (blocked_with (codes "gate: halted during pending") true) (λ _. tt) h,
  )

  resolve_call-IsStopped :
      (k : String) (d : Option Decision) (w : World P)
      → IsStopped (w.phase e)
      → IsStopped ((resolve_call P k d w).phase e)
  unfolding resolve_call
  resolve_call-IsStopped k d w h = elim (Bool-cases (has k w.gate.pending_resolvers)) [
    | inl listed ↦ ground (
      arith,
      put-IsStopped w k (wake (w.phase k))
          (λ same. wake-IsStopped (w.phase k) (subst (λ x. IsStopped (w.phase x)) (sym same) h)) h,
    )
    | inr other ↦ rw other h
  ]

  halt_gate-IsStopped :
      (reason : String) (w : World P)
      → IsStopped (w.phase e)
      → IsStopped ((halt_gate P reason w).phase e)
  unfolding halt_gate
  halt_gate-IsStopped reason w h = ground (arith, wake-IsStopped (w.phase e) h)

  on_phase-IsStopped :
      (ev : Event) (p : Phase) (w : World P)
      → w.gate.halted ≡ true
      → w.phase (subject P ev) ≡ p
      → IsStopped (w.phase e)
      → IsStopped ((on_phase P ev p w).phase e)
  unfolding on_phase
  on_phase-IsStopped (start c) idle w on i h = start_call-IsStopped c w on h
  on_phase-IsStopped (answer k now) (requested c a) w on i h =
      put-IsStopped w k _ (λ same. absurd (moving w k i h same)) h
  on_phase-IsStopped (shown k) (notifying c) w on i h =
      put-IsStopped w k _ (λ same. wait_for_resolve-IsStopped c w.gate) h
  on_phase-IsStopped (resume k) (woken c) w on i h = resume_call-IsStopped c w on h
  on_phase-IsStopped (reanswer k now) (rerequested c a) w on i h =
      put-IsStopped w k _ (λ same. absurd (moving w k i h same)) h
  on_phase-IsStopped (finish k outcome) (dispatching c) w on i h =
      put-IsStopped w k _ (λ same. on_outcome-IsStopped c outcome w.gate) h
  on_phase-IsStopped (reported k) (reporting c) w on i h = put-IsStopped w k _ (λ same. tt) h
  on_phase-IsStopped (resolve k decision) idle w on i h = h
  on_phase-IsStopped (halt reason) idle w on i h = h
  on_phase-IsStopped collect idle w on i h = h
  on_phase-IsStopped _ _ w on i h = h

  step-IsStopped :
      (ev : Event) (w : World P)
      → w.gate.halted ≡ true
      → IsStopped (w.phase e)
      → IsStopped ((step P ev w).phase e)
  unfolding step
  step-IsStopped (resolve k decision) w on h = resolve_call-IsStopped k decision w h
  step-IsStopped (halt reason) w on h = halt_gate-IsStopped reason w h
  step-IsStopped collect w on h = h
  step-IsStopped ev w on h = on_phase-IsStopped ev (w.phase (subject P ev)) w on refl h

  run-IsStopped :
      (evs : List Event) (w : World P)
      → w.gate.halted ≡ true
      → IsStopped (w.phase e)
      → IsStopped ((run P evs w).phase e)
  unfolding run
  run-IsStopped [] w on h = h
  run-IsStopped (ev ∷ evs) w on h =
      run-IsStopped evs (step P ev w) (step-halted P ev w on) (step-IsStopped ev w on h)

-- A call that holds no answer of the plug when the gate is halted (it has not started, is asking
-- the user or waits for the decision) is never dispatched, whatever events follow the halt.
pub halt_stops :
    (P : GateProvider) (w : World P) (reason : String) (evs : List Event) (e : String) (c : Call)
    → IsStopped (w.phase e)
    → (run P (halt reason ∷ evs) w).phase e ≢ dispatching c
unfolding run step halt_gate
halt_stops P w reason evs e c h d =
    subst IsStopped d
      (run-IsStopped P e evs (halt_gate P reason w) refl (halt_gate-IsStopped P e reason w h))

-- A call whose first answer was `allow` and is not yet delivered when the gate is halted is
-- dispatched all the same, if its descriptor passes the integrity check.
pub halt_misses_answered :
    (P : GateProvider) (w : World P) (reason : String) (e : String) (c : Call)
    → w.phase e ≡ requested c GateAnswer.allow
    → verify_integrity c.descriptor ≡ true
    → (run P (halt reason ∷ answer e c.descriptor.content ∷ []) w).phase e ≡ dispatching c
unfolding run step halt_gate on_phase on_answer
halt_misses_answered P w reason e c h good =
    let unmoved : wake_all P w.gate.pending_resolvers w.phase e ≡ requested c GateAnswer.allow =
      ground arith in
    subst
      (λ p.
        (on_phase P (answer e c.descriptor.content) p (halt_gate P reason w)).phase e
        ≡ dispatching c)
      (sym unmoved) (ground (arith, eq_refl e))

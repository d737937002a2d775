-- ===== src/Harness/Gate/Invariant.antt =====
-- What holds of the gate between two events, for each effect id.
use hera_v.Shared.{
  String, ◌≡◌, refl, ◌≢◌, Bool, true, false, Option, List, [], ◌∷◌, arith, eq_iff, inl, inr,
  Bool-cases, ap, ◌∙◌,
}
use mathlib.Core.Path.{subst}
use hera_v.Shared.Dict.{has, has-insert, has-erase, has-nil, str_eq}
use hera_v.Harness.Descriptor.Integrity.{freeze-effect_id}
use hera_v.Harness.Gate.{
  Decision, put, ask_plug, frozen_call, GateAnswer, GateProvider, Call, Outcome, Phase, idle,
  requested, notifying, waiting, woken, rerequested, dispatching, reporting, returned, thrown, Gate,
  id_of, with_content, wait_for_resolve, on_answer, on_reanswer, on_outcome, Event, start, answer,
  shown, resume, reanswer, finish, reported, resolve, halt, collect, World, new_world, step, run,
  start_call, resume_call, resolve_call, halt_gate, on_phase, collect_in_flight, subject,
  in_flight_as, InFlight,
}

abbrev pub is_waiting : Phase → Bool
is_waiting (waiting c) = true
is_waiting _ = false

-- The call is between its request and its end, so that `inFlight` may list it.
abbrev pub is_live : Phase → Bool
is_live idle = false
is_live (reporting c) = false
is_live (returned r) = false
is_live (thrown m) = false
is_live _ = true

abbrev pub Named : String → Phase → Type 0
Named e (requested c a) = id_of c ≡ e
Named e (notifying c) = id_of c ≡ e
Named e (waiting c) = id_of c ≡ e
Named e (woken c) = id_of c ≡ e
Named e (rerequested c a) = id_of c ≡ e
Named e (dispatching c) = id_of c ≡ e
Named e (reporting c) = id_of c ≡ e
Named e _ = Unit

-- The entries of the gate's two maps under `e` fit the phase of the call of that id.
pub record Fits (e : String) (g : Gate) (p : Phase) : Type 0 where
  pub named : Named e p
  pub registered : has e g.pending_resolvers ≡ is_waiting p
  pub tracked : has e g.in_flight ≡ true → is_live p ≡ true
  pub quiet : g.halted ≡ true → is_waiting p ≡ false

module _ (e : String) (c : Call) (g : Gate) (name : id_of c ≡ e) where
  on_answer-Fits :
      (a : GateAnswer) {p : Phase}
      → is_waiting p ≡ false
      → Fits e g p
      → Fits e (on_answer c a g).0 (on_answer c a g).1
  unfolding on_answer
  on_answer-Fits a idle_before f = ground (
    arith,
    has-insert (id_of c) e tt g.pending_resolvers,
    has-erase (id_of c) e g.in_flight,
    eq_iff (id_of c) e,
  )

  on_reanswer-Fits :
      (a : GateAnswer) {p : Phase}
      → is_waiting p ≡ false
      → is_live p ≡ true
      → Fits e g p
      → Fits e (on_reanswer c a g).0 (on_reanswer c a g).1
  unfolding on_reanswer
  on_reanswer-Fits a idle_before live f =
      ground (arith, has-erase (id_of c) e g.in_flight, eq_iff (id_of c) e)

  on_outcome-Fits :
      (o : Outcome) {p : Phase}
      → is_waiting p ≡ false
      → Fits e g p
      → Fits e (on_outcome c o g).0 (on_outcome c o g).1
  unfolding on_outcome
  on_outcome-Fits o idle_before f =
      ground (arith, has-erase (id_of c) e g.in_flight, eq_iff (id_of c) e)

  wait_for_resolve-Fits :
      {p : Phase}
      → is_waiting p ≡ false
      → is_live p ≡ true
      → Fits e g p
      → Fits e (wait_for_resolve c g).0 (wait_for_resolve c g).1
  unfolding wait_for_resolve
  wait_for_resolve-Fits idle_before live f =
      ground (arith, has-insert (id_of c) e tt g.pending_resolvers, eq_iff (id_of c) e)

  -- The entries of the other calls stay as they are.
  module _ (k : String) (other : e ≢ k) {p : Phase} (f : Fits k g p) where
    on_answer-others : (a : GateAnswer) → Fits k (on_answer c a g).0 p
    unfolding on_answer
    on_answer-others a = ground (
      arith,
      has-insert (id_of c) k tt g.pending_resolvers,
      has-erase (id_of c) k g.in_flight,
      has-insert (id_of c) k (in_flight_as "dispatching" c) g.in_flight,
      has-insert (id_of c) k (in_flight_as "pending" c) g.in_flight,
      eq_iff (id_of c) k,
    )

    on_reanswer-others : (a : GateAnswer) → Fits k (on_reanswer c a g).0 p
    unfolding on_reanswer
    on_reanswer-others a = ground (arith, has-erase (id_of c) k g.in_flight, eq_iff (id_of c) k)

    on_outcome-others : (o : Outcome) → Fits k (on_outcome c o g).0 p
    unfolding on_outcome
    on_outcome-others o = ground (arith, has-erase (id_of c) k g.in_flight, eq_iff (id_of c) k)

    wait_for_resolve-others : Fits k (wait_for_resolve c g).0 p
    unfolding wait_for_resolve
    wait_for_resolve-others =
        ground (arith, has-insert (id_of c) k tt g.pending_resolvers, eq_iff (id_of c) k)

module _ (P : GateProvider) where
  -- The gate fits all calls.
  abbrev pub Inv : World P → Type 0
  Inv w = (e : String) → Fits e w.gate (w.phase e)

  put-Inv :
      (w : World P) (e : String) (r : Gate × Phase)
      → Fits e r.0 r.1
      → ((k : String) → e ≢ k → Fits k r.0 (w.phase k))
      → Inv (put P w e r)
  put-Inv w e r here others k = elim (Bool-cases (str_eq e k)) [
    | inl same ↦ let p : e ≡ k = (eq_iff e k).0 same in rw same (subst (λ x. Fits x r.0 r.1) p here)
    | inr other ↦ rw other (others k (λ p. ground (arith, eq_iff e k)))
  ]

  ask_plug-Inv : (c : Call) (w : World P) → w.phase (id_of c) ≡ idle → Inv w → Inv (ask_plug P c w)
  unfolding ask_plug
  ask_plug-Inv c w i h k = ground (
    arith,
    h k,
    h (id_of c),
    eq_iff (id_of c) k,
    has-insert (id_of c) k (in_flight_as "dispatching" c) w.gate.in_flight,
  )

  start_call-Inv :
      (c : Call) (w : World P) → w.phase (id_of c) ≡ idle → Inv w → Inv (start_call P c w)
  unfolding start_call
  start_call-Inv c w i h k = ground (
    arith,
    h k,
    h (id_of c),
    eq_iff (id_of c) k,
    ask_plug-Inv (frozen_call P c) w (rw (freeze-effect_id c.descriptor) i) h k,
  )

  resume_call-Inv :
      (c : Call) (w : World P) → w.phase (id_of c) ≡ woken c → Inv w → Inv (resume_call P c w)
  unfolding resume_call
  resume_call-Inv c w i h k =
      ground (arith, h k, h (id_of c), eq_iff (id_of c) k, has-erase (id_of c) k w.gate.in_flight)

  resolve_call-Inv :
      (e : String) (d : Option Decision) (w : World P) → Inv w → Inv (resolve_call P e d w)
  unfolding resolve_call
  resolve_call-Inv e d w h k =
      ground (arith, h k, h e, eq_iff e k, has-erase e k w.gate.pending_resolvers)

  halt_gate-Inv : (reason : String) (w : World P) → Inv w → Inv (halt_gate P reason w)
  unfolding halt_gate
  halt_gate-Inv reason w h k = ground (arith, h k, has-nil (Unit {0}) k)

  on_phase-Inv :
      (ev : Event) (p : Phase) (w : World P)
      → w.phase (subject P ev) ≡ p
      → Inv w
      → Inv (on_phase P ev p w)
  unfolding on_phase
  on_phase-Inv (start c) idle w i h = start_call-Inv c w i h
  on_phase-Inv (answer e now) (requested c a) w i h =
      let f = subst (Fits e w.gate) i (h e) in
      let c' = with_content now c in
      put-Inv w e _ (on_answer-Fits e c' w.gate f.named a refl f)
        (λ k other. on_answer-others e c' w.gate f.named k other (h k) a)
  on_phase-Inv (shown e) (notifying c) w i h =
      let f = subst (Fits e w.gate) i (h e) in
      put-Inv w e _ (wait_for_resolve-Fits e c w.gate f.named refl refl f)
        (λ k other. wait_for_resolve-others e c w.gate f.named k other (h k))
  on_phase-Inv (resume e) (woken c) w i h =
      let f = subst (Fits e w.gate) i (h e) in resume_call-Inv c w (ap w.phase f.named ∙ i) h
  on_phase-Inv (reanswer e now) (rerequested c a) w i h =
      let f = subst (Fits e w.gate) i (h e) in
      let c' = with_content now c in
      put-Inv w e _ (on_reanswer-Fits e c' w.gate f.named a refl refl f)
        (λ k other. on_reanswer-others e c' w.gate f.named k other (h k) a)
  on_phase-Inv (finish e outcome) (dispatching c) w i h =
      let f = subst (Fits e w.gate) i (h e) in
      put-Inv w e _ (on_outcome-Fits e c w.gate f.named outcome refl f)
        (λ k other. on_outcome-others e c w.gate f.named k other (h k) outcome)
  on_phase-Inv (reported e) (reporting c) w i h =
      let f = subst (Fits e w.gate) i (h e) in put-Inv w e _ (ground arith) (λ k other. h k)
  on_phase-Inv (resolve e decision) idle w i h = h
  on_phase-Inv (halt reason) idle w i h = h
  on_phase-Inv collect idle w i h = h
  on_phase-Inv _ _ w i h = h

  collect-Inv : (w : World P) → Inv w → Inv (record w { gate = (collect_in_flight w.gate).1 })
  unfolding collect_in_flight
  collect-Inv w h k = ground (arith, h k, has-nil InFlight k)

  pub step-Inv : (ev : Event) (w : World P) → Inv w → Inv (step P ev w)
  unfolding step
  step-Inv (resolve e decision) w h = resolve_call-Inv e decision w h
  step-Inv (halt reason) w h = halt_gate-Inv reason w h
  step-Inv collect w h = collect-Inv w h
  step-Inv ev w h = on_phase-Inv ev (w.phase (subject P ev)) w refl h

  new_world-Inv : (s : P.State) → Inv (new_world P s)
  unfolding new_world
  new_world-Inv s k = ground (arith, has-nil InFlight k, has-nil (Unit {0}) k)

  run-Inv_from : (evs : List Event) (w : World P) → Inv w → Inv (run P evs w)
  unfolding run
  run-Inv_from [] w h = h
  run-Inv_from (ev ∷ evs) w h = run-Inv_from evs (step P ev w) (step-Inv ev w h)

-- After any events from a new gate, for every effect id: a resolver is registered exactly when
-- the call waits for one, an in-flight entry belongs to a call that is between its request and
-- its end, and no call waits once the gate is halted.
pub run-Fits :
    (P : GateProvider) (s : P.State) (evs : List Event) (e : String)
    → Fits e (run P evs (new_world P s)).gate ((run P evs (new_world P s)).phase e)
run-Fits P s evs e = run-Inv_from P evs (new_world P s) (new_world-Inv P s) e

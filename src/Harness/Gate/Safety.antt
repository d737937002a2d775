-- ===== src/Harness/Gate/Safety.antt =====
-- What a dispatch rests on, and what a halt stops.
use hera_v.Shared.{
  String, ◌≡◌, refl, sym, ◌∙◌, some, ◌++◌, Bool, true, false, Option, List, [], ◌∷◌, arith,
  if◌then◌else◌, Bool-cases, inl, inr,
}
use hera_v.Shared.Dict.{has, str_eq}
use hera_v.Shared.Text.{Text}
use hera_v.Harness.Descriptor.{Descriptor, freeze, simple_hash, verify_integrity}
use hera_v.Harness.Gate.{
  GateAnswer, GateProvider, Call, Outcome, Phase, idle, requested, notifying, waiting, woken,
  rerequested, dispatching, reporting, Gate, completed, failed, id_of, with_content, on_answer,
  on_reanswer, on_outcome, wait_for_resolve, Event, start, answer, shown, resume, reanswer, finish,
  reported, resolve, halt, collect, World, new_world, step, run, start_call, ask_plug, resume_call,
  resolve_call, halt_gate, on_phase, subject, frozen_call, Decision, wake,
}
use mathlib.Core.Path.{subst}
use mathlib.Core.List.{append_assoc, append-nil}

module _ (P : GateProvider) (s : P.State) (evs : List Event) where
  -- The plug is in this state after the first of the events.
  pub record IsReached (state : P.State) : Type 0 where
    pub before : List Event
    pub later : List Event
    pub split : before ++ later ≡ evs
    pub arrived : (run P before (new_world P s)).plug ≡ state

  -- In a state that it had during the run the plug allowed this very descriptor, up to what it holds
  -- now; the descriptor is frozen, and its hash is that of what it holds now.
  pub record Allowed (c : Call) : Type 0 where
    pub asked : Descriptor
    pub state : P.State
    pub reached : IsReached state
    pub allowed : (P.request asked state).0 ≡ GateAnswer.allow
    pub same : record asked { content = c.descriptor.content } ≡ c.descriptor
    pub frozen : c.descriptor.frozen ≡ true
    pub intact : c.descriptor.hash ≡ some (simple_hash c.descriptor.content)

  -- A frozen call, and where the plug was asked what it answers.
  abbrev IsAsked : Call → GateAnswer → Type 0
  IsAsked c a =
      (c.descriptor.frozen ≡ true)
      × ((state : P.State) × IsReached state × ((P.request c.descriptor state).0 ≡ a))

  abbrev pub Sanctioned : Phase → Type 0
  Sanctioned (requested c a) = IsAsked c a
  Sanctioned (rerequested c a) = IsAsked c a
  Sanctioned (notifying c) = c.descriptor.frozen ≡ true
  Sanctioned (waiting c) = c.descriptor.frozen ≡ true
  Sanctioned (woken c) = c.descriptor.frozen ≡ true
  Sanctioned (dispatching c) = Allowed c
  Sanctioned _ = Unit

  abbrev AllSanctioned : World P → Type 0
  AllSanctioned w = (e : String) → Sanctioned (w.phase e)

  intact-hash :
      (d : Descriptor)
      → d.frozen ≡ true
      → verify_integrity d ≡ true
      → d.hash ≡ some (simple_hash d.content)
  unfolding verify_integrity
  intact-hash d f h = ground arith

  checked_call :
      (c : Call) (now : Text)
      → IsAsked c GateAnswer.allow
      → verify_integrity (with_content now c).descriptor ≡ true
      → Allowed (with_content now c)
  checked_call c now (f, (state, r, h)) good = record {
    asked = c.descriptor;
    state = state;
    reached = r;
    allowed = h;
    same = refl;
    frozen = f;
    intact = intact-hash (with_content now c).descriptor f good;
  }

  on_answer-Sanctioned :
      (c : Call) (now : Text) (a : GateAnswer) (g : Gate)
      → IsAsked c a
      → Sanctioned (on_answer (with_content now c) a g).1
  unfolding on_answer wait_for_resolve
  on_answer-Sanctioned c now GateAnswer.allow g h =
      elim (Bool-cases (verify_integrity (with_content now c).descriptor)) [
        | inl good ↦ rw good (checked_call c now h good)
        | inr bad ↦ rw bad tt
      ]
  on_answer-Sanctioned c now GateAnswer.pending g h =
      let f : c.descriptor.frozen ≡ true = h.0 in ground (arith, f)
  on_answer-Sanctioned c now a g h = ground arith

  on_reanswer-Sanctioned :
      (c : Call) (now : Text) (a : GateAnswer) (g : Gate)
      → IsAsked c a
      → Sanctioned (on_reanswer (with_content now c) a g).1
  unfolding on_reanswer
  on_reanswer-Sanctioned c now GateAnswer.allow g h =
      elim (Bool-cases (verify_integrity (with_content now c).descriptor)) [
        | inl good ↦ rw good (checked_call c now h good)
        | inr bad ↦ rw bad tt
      ]
  on_reanswer-Sanctioned c now a g h = ground arith

  at-Sanctioned :
      (w : World P) (e : String) (p : Phase)
      → Sanctioned p
      → AllSanctioned w
      → (k : String) → Sanctioned (if str_eq e k then p else w.phase k)
  at-Sanctioned w e p here h k = elim (Bool-cases (str_eq e k)) [
    | inl same ↦ rw same here
    | inr other ↦ rw other (h k)
  ]

  branch-Sanctioned :
      (b : Bool) (x y : World P)
      → AllSanctioned x
      → AllSanctioned y
      → AllSanctioned (if b then x else y)
  branch-Sanctioned true x y h k = h
  branch-Sanctioned false x y h k = k

  resume_call-Sanctioned :
      (c : Call) (w : World P)
      → IsReached w.plug
      → c.descriptor.frozen ≡ true
      → AllSanctioned w
      → AllSanctioned (resume_call P c w)
  unfolding resume_call
  resume_call-Sanctioned c w r f h =
      branch-Sanctioned w.gate.halted _ _ (at-Sanctioned w (id_of c) _ tt h) (
        at-Sanctioned w (id_of c) (rerequested c (P.request c.descriptor w.plug).0)
          (f, (w.plug, r, refl)) h)

  freeze-frozen : (d : Descriptor) → (freeze d).frozen ≡ true
  unfolding freeze
  freeze-frozen d = ground arith

  start_call-Sanctioned :
      (c : Call) (w : World P)
      → IsReached w.plug
      → AllSanctioned w
      → AllSanctioned (start_call P c w)
  unfolding start_call ask_plug
  start_call-Sanctioned c w r h =
      let c' = frozen_call P c in
      branch-Sanctioned w.gate.halted _ _ (at-Sanctioned w (id_of c) _ tt h) (
        at-Sanctioned w (id_of c') (requested c' (P.request c'.descriptor w.plug).0)
          (freeze-frozen c.descriptor, (w.plug, r, refl)) h)

  wait_for_resolve-Sanctioned :
      (c : Call) (g : Gate) → c.descriptor.frozen ≡ true → Sanctioned (wait_for_resolve c g).1
  unfolding wait_for_resolve
  wait_for_resolve-Sanctioned c g f = ground arith

  on_outcome-Sanctioned : (c : Call) (o : Outcome) (g : Gate) → Sanctioned (on_outcome c o g).1
  unfolding on_outcome
  on_outcome-Sanctioned c (completed status text) g = tt
  on_outcome-Sanctioned c (failed message) g = tt

  on_phase-Sanctioned :
      (ev : Event) (p : Phase) (w : World P)
      → IsReached w.plug
      → w.phase (subject P ev) ≡ p
      → AllSanctioned w
      → AllSanctioned (on_phase P ev p w)
  unfolding on_phase
  on_phase-Sanctioned (start c) idle w r i h = start_call-Sanctioned c w r h
  on_phase-Sanctioned (answer e now) (requested c a) w r i h =
      at-Sanctioned w e _ (on_answer-Sanctioned c now a w.gate (subst Sanctioned i (h e))) h
  on_phase-Sanctioned (shown e) (notifying c) w r i h =
      at-Sanctioned w e _ (wait_for_resolve-Sanctioned c w.gate (subst Sanctioned i (h e))) h
  on_phase-Sanctioned (resume e) (woken c) w r i h =
      resume_call-Sanctioned c w r (subst Sanctioned i (h e)) h
  on_phase-Sanctioned (reanswer e now) (rerequested c a) w r i h =
      at-Sanctioned w e _ (on_reanswer-Sanctioned c now a w.gate (subst Sanctioned i (h e))) h
  on_phase-Sanctioned (finish e outcome) (dispatching c) w r i h =
      at-Sanctioned w e _ (on_outcome-Sanctioned c outcome w.gate) h
  on_phase-Sanctioned (reported e) (reporting c) w r i h = at-Sanctioned w e _ tt h
  on_phase-Sanctioned (resolve e decision) idle w r i h = h
  on_phase-Sanctioned (halt reason) idle w r i h = h
  on_phase-Sanctioned collect idle w r i h = h
  on_phase-Sanctioned _ _ w r i h = h

  wake-Sanctioned : (p : Phase) → Sanctioned p → Sanctioned (wake p)
  wake-Sanctioned (waiting c) h = h
  wake-Sanctioned p h = h

  resolve_call-Sanctioned :
      (e : String) (d : Option Decision) (w : World P)
      → AllSanctioned w
      → AllSanctioned (resolve_call P e d w)
  unfolding resolve_call
  resolve_call-Sanctioned e d w h =
      branch-Sanctioned (has e w.gate.pending_resolvers) _ _
        (at-Sanctioned w e _ (wake-Sanctioned (w.phase e) (h e)) h) h

  halt_gate-Sanctioned :
      (reason : String) (w : World P) → AllSanctioned w → AllSanctioned (halt_gate P reason w)
  unfolding halt_gate
  halt_gate-Sanctioned reason w h k = elim (Bool-cases (has k w.gate.pending_resolvers)) [
    | inl listed ↦ rw listed (wake-Sanctioned (w.phase k) (h k))
    | inr other ↦ rw other (h k)
  ]

  step-Sanctioned :
      (ev : Event) (w : World P) → IsReached w.plug → AllSanctioned w → AllSanctioned (step P ev w)
  unfolding step
  step-Sanctioned (resolve e decision) w r h = resolve_call-Sanctioned e decision w h
  step-Sanctioned (halt reason) w r h = halt_gate-Sanctioned reason w h
  step-Sanctioned collect w r h = h
  step-Sanctioned ev w r h = on_phase-Sanctioned ev (w.phase (subject P ev)) w r refl h

  run-snoc :
      (done : List Event) (ev : Event) (w : World P)
      → step P ev (run P done w) ≡ run P (done ++ ev ∷ []) w
  unfolding run
  run-snoc [] ev w = refl
  run-snoc (d ∷ done) ev w = run-snoc done ev (step P d w)

  run-Sanctioned :
      (done rest : List Event)
      → done ++ rest ≡ evs
      → AllSanctioned (run P done (new_world P s))
      → AllSanctioned (run P evs (new_world P s))
  run-Sanctioned done [] e h =
      subst (λ l. AllSanctioned (run P l (new_world P s))) (sym (append-nil done) ∙ e) h
  run-Sanctioned done (ev ∷ rest) e h =
      run-Sanctioned (done ++ ev ∷ []) rest (append_assoc done (ev ∷ []) rest ∙ e) (
        subst AllSanctioned (run-snoc done ev (new_world P s)) (
          step-Sanctioned ev (run P done (new_world P s))
            (record { before = done; later = ev ∷ rest; split = e; arrived = refl }) h))

  new_world-Sanctioned : AllSanctioned (new_world P s)
  unfolding new_world
  new_world-Sanctioned e = tt

-- After any events from a new gate, a call that is being dispatched was allowed by the plug: in a
-- state that the plug had after some of these events it answered `allow` for the call's own
-- descriptor, which differs from the dispatched one at most in its content. The dispatched descriptor
-- is frozen, and the hash that was taken when it was frozen is that of the content it has now.
pub dispatching-Allowed :
    (P : GateProvider) (s : P.State) (evs : List Event) (e : String) (c : Call)
    → (run P evs (new_world P s)).phase e ≡ dispatching c
    → Allowed P s evs c
unfolding run
dispatching-Allowed P s evs e c h =
    subst (Sanctioned P s evs) h
      (run-Sanctioned P s evs [] evs refl (new_world-Sanctioned P s evs) e)

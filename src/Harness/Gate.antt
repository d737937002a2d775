-- ===== src/Harness/Gate.antt =====
-- src/harness/gate.ts: the chokepoint in front of every effect, over any plug.
-- An `await` ends a step: a call of `execute` or `egress` is in a phase, and the event loop chooses
-- which call goes on. A call is named by its effect id, which no other call has.
use hera_v.Shared.{
  String, ◌++◌, Bool, true, false, Option, none, some, List, [], ◌∷◌, if◌then◌else◌,
}
use hera_v.Shared.Dict.{lookup, insert, erase, has, str_eq}
use hera_v.Shared.Text.{Text, codes}
use hera_v.Harness.Descriptor.{Descriptor, freeze, verify_integrity}
pub mod Invariant
pub mod Safety
pub mod Halt
pub mod Progress
mod Examples

pub data GateAnswer : Type 0 where
  allow : GateAnswer
  block : Text → GateAnswer
  pending : GateAnswer
  unavailable : GateAnswer

pub data Decision : Type 0 where
  allow deny : Decision

pub data AdmitResult : Type 0 where
  admitted : String → AdmitResult
  refused : String → AdmitResult

-- src/harness/provider.ts: what every plug implements. A plug's state is explicit.
pub record GateProvider : Type 1 where
  pub State : Type 0
  pub admit : String → String → State → AdmitResult
  pub request : Descriptor → State → GateAnswer × State
  pub resolve : String → Option Decision → State → State
  pub halt : String → State → State

pub data Status : Type 0 where
  ok error cancelled blocked : Status

pub record GateExecuteResult : Type 0 where
  pub status : Status
  pub text : Text
  pub end_prompt : Bool

pub data Entry : Type 0 where
  execute egress : Entry

-- A call with its optional callbacks; `egress` has no `onUnavailable`.
pub record Call : Type 0 where
  pub entry : Entry
  pub descriptor : Descriptor
  pub on_pending : Bool
  pub on_unavailable : Bool

-- What a running dispatch comes to: a result, or an exception.
pub data Outcome : Type 0 where
  completed : Status → Text → Outcome
  failed : Text → Outcome

-- Where a call is suspended, or how it ended.
pub data Phase : Type 0 where
  idle : Phase
  requested : Call → GateAnswer → Phase
  notifying : Call → Phase
  waiting : Call → Phase
  woken : Call → Phase
  rerequested : Call → GateAnswer → Phase
  dispatching : Call → Phase
  reporting : Call → Phase
  returned : GateExecuteResult → Phase
  thrown : Text → Phase

pub record InFlight : Type 0 where
  pub kind : String
  pub target : String
  pub status : String

pub record Gate : Type 0 where
  pub run_ctx : String
  pub admitted : Bool
  pub halted : Bool
  pub in_flight : List (String × InFlight)
  pub pending_resolvers : List (String × Unit {0})

unfoldable pub new_gate : Gate
new_gate = record {
  run_ctx = "";
  admitted = false;
  halted = false;
  in_flight = [];
  pending_resolvers = [];
}

abbrev pub id_of : Call → String
id_of c = c.descriptor.effect_id

abbrev in_flight_as : String → Call → InFlight
in_flight_as status c = record {
  kind = c.descriptor.kind;
  target = c.descriptor.target;
  status = status;
}

abbrev track : String → Call → Gate → Gate
track status c g = record g { in_flight = insert (id_of c) (in_flight_as status c) g.in_flight }

abbrev untrack : Call → Gate → Gate
untrack c g = record g { in_flight = erase (id_of c) g.in_flight }

abbrev pub blocked_with : Text → Bool → Phase
blocked_with text end_prompt =
    returned (record { status = blocked; text = text; end_prompt = end_prompt })

-- The two entry points word a failed integrity check differently.
abbrev mismatch : Entry → Text
mismatch execute =
    codes "gate: descriptor parameters changed between request and dispatch (path mismatch)"
mismatch egress = codes "gate: descriptor parameters changed between request and dispatch"

-- `execute` sets the entry of the map again before it dispatches.
abbrev retracks : Entry → Bool
retracks execute = true
retracks egress = false

abbrev reports : Call → Bool
reports c = elim c.entry [ execute ↦ c.on_unavailable | egress ↦ false ]

-- The descriptor as it is now: what it holds may have changed while the call was suspended.
abbrev pub with_content : Text → Call → Call
with_content now c = record c { descriptor = record c.descriptor { content = now } }

abbrev gate_unavailable : Call → Phase
gate_unavailable c =
    blocked_with (codes "WARNING: gate unavailable for effect " ++ codes (id_of c)) true

unavailable_now : Call → Gate → Gate × Phase
unavailable_now c g = (untrack c g, if reports c then reporting c else gate_unavailable c)

allowed_now : Call → Gate → Gate × Phase
allowed_now c g =
    if verify_integrity c.descriptor
    then (if retracks c.entry then track "dispatching" c g else g, dispatching c)
    else (untrack c g, blocked_with (mismatch c.entry) false)

-- `waitForResolve`
wait_for_resolve : Call → Gate → Gate × Phase
wait_for_resolve c g =
    if g.halted
    then (g, woken c)
    else (record g { pending_resolvers = insert (id_of c) tt g.pending_resolvers }, waiting c)

-- After the first `await this.provider.request(descriptor)`.
on_answer : Call → GateAnswer → Gate → Gate × Phase
unfolding unavailable_now allowed_now wait_for_resolve
on_answer c allow g = allowed_now c g
on_answer c (block reason) g = (untrack c g, blocked_with reason false)
on_answer c pending g =
    let g' = track "pending" c g in
    if c.on_pending then (g', notifying c) else wait_for_resolve c g'
on_answer c unavailable g = unavailable_now c g

-- After the second one; a second `pending` falls through to "unavailable after pending".
on_reanswer : Call → GateAnswer → Gate → Gate × Phase
unfolding unavailable_now allowed_now
on_reanswer c allow g =
    if verify_integrity c.descriptor
    then (g, dispatching c)
    else (untrack c g, blocked_with (mismatch c.entry) false)
on_reanswer c (block reason) g = (untrack c g, blocked_with reason false)
on_reanswer c _ g = unavailable_now c g

-- After `await dispatch()`, whether it returns or throws.
on_outcome : Call → Outcome → Gate → Gate × Phase
on_outcome c (completed status text) g =
    (untrack c g, returned (record { status = status; text = text; end_prompt = false }))
on_outcome c (failed message) g = (untrack c g, thrown message)

-- What calls the continuation of a suspended call, and what other code does to the gate.
pub data Event : Type 0 where
  start : Call → Event
  answer : String → Text → Event
  shown : String → Event
  resume : String → Event
  reanswer : String → Text → Event
  finish : String → Outcome → Event
  reported : String → Event
  resolve : String → Option Decision → Event
  halt : String → Event
  collect : Event

abbrev pub Phases : Type 0
Phases = String → Phase

abbrev pub at : Phases → String → Phase → Phases
at phase e p = λ k. if str_eq e k then p else phase k

abbrev wake : Phase → Phase
wake (waiting c) = woken c
wake p = p

-- `collectInFlight`
unfoldable pub collect_in_flight : Gate → List (String × InFlight) × Gate
collect_in_flight g = (g.in_flight, record g { in_flight = [] })

module _ (P : GateProvider) where
  pub record World : Type 0 where
    pub gate : Gate
    pub plug : P.State
    pub phase : Phases

  unfoldable pub new_world : P.State → World
  unfolding new_gate
  new_world s = record { gate = new_gate; plug = s; phase = λ _. idle }

  unfoldable pub admit_gate : String → String → World → AdmitResult × World
  admit_gate definition_hash plug_hash w = elim (P.admit definition_hash plug_hash w.plug) [
    | admitted ctx ↦
        (admitted ctx, record w { gate = record w.gate { admitted = true; run_ctx = ctx } })
    | refused reason ↦ (refused reason, w)
  ]

  abbrev put : World → String → Gate × Phase → World
  put w e r = record w { gate = r.0; phase = at w.phase e r.1 }

  -- The first request, with its entry in the map.
  ask_plug : Call → World → World
  ask_plug c w =
      let (a, s) = P.request c.descriptor w.plug in
      record {
        gate = track "dispatching" c w.gate;
        plug = s;
        phase = at w.phase (id_of c) (requested c a);
      }

  abbrev frozen_call : Call → Call
  frozen_call c = record c { descriptor = freeze c.descriptor }

  -- `execute` and `egress` up to the first answer.
  start_call : Call → World → World
  start_call c w =
      if w.gate.halted
      then record w { phase = at w.phase (id_of c) (blocked_with (codes "gate: halted") true) }
      else ask_plug (frozen_call c) w

  -- The continuation of `waitForResolve`.
  resume_call : Call → World → World
  resume_call c w =
      if w.gate.halted
      then put w (id_of c)
          (untrack c w.gate, blocked_with (codes "gate: halted during pending") true)
      else let (a, s) = P.request c.descriptor w.plug in
        record w { plug = s; phase = at w.phase (id_of c) (rerequested c a) }

  abbrev wake_all : List (String × Unit {0}) → Phases → Phases
  wake_all resolvers phase = λ e. if has e resolvers then wake (phase e) else phase e

  resolve_call : String → Option Decision → World → World
  resolve_call e decision w =
      let plug' = P.resolve e decision w.plug in
      if has e w.gate.pending_resolvers
      then record {
        gate = record w.gate { pending_resolvers = erase e w.gate.pending_resolvers };
        plug = plug';
        phase = at w.phase e (wake (w.phase e));
      }
      else record w { plug = plug' }

  halt_gate : String → World → World
  halt_gate reason w = record {
    gate = record w.gate { halted = true; pending_resolvers = [] };
    plug = P.halt reason w.plug;
    phase = wake_all w.gate.pending_resolvers w.phase;
  }

  -- One event. An event that does not fit the call's phase does not occur: nothing changes. A plug's
  -- answer and the notice of a pending call do not reject.
  on_phase : Event → Phase → World → World
  unfolding start_call ask_plug resume_call on_answer on_reanswer on_outcome wait_for_resolve
  on_phase (start c) idle w = start_call c w
  on_phase (answer e now) (requested c a) w = put w e (on_answer (with_content now c) a w.gate)
  on_phase (shown e) (notifying c) w = put w e (wait_for_resolve c w.gate)
  on_phase (resume e) (woken c) w = resume_call c w
  on_phase (reanswer e now) (rerequested c a) w =
      put w e (on_reanswer (with_content now c) a w.gate)
  on_phase (finish e outcome) (dispatching c) w = put w e (on_outcome c outcome w.gate)
  on_phase (reported e) (reporting c) w = put w e (w.gate, gate_unavailable c)
  on_phase _ _ w = w

  abbrev subject : Event → String
  subject (start c) = id_of c
  subject (answer e now) = e
  subject (shown e) = e
  subject (resume e) = e
  subject (reanswer e now) = e
  subject (finish e outcome) = e
  subject (reported e) = e
  subject (resolve e decision) = e
  subject (halt reason) = ""
  subject collect = ""

  pub step : Event → World → World
  unfolding on_phase resolve_call halt_gate collect_in_flight
  step (resolve e decision) w = resolve_call e decision w
  step (halt reason) w = halt_gate reason w
  step collect w = record w { gate = (collect_in_flight w.gate).1 }
  step ev w = on_phase ev (w.phase (subject ev)) w

  pub run : List Event → World → World
  unfolding step
  run [] w = w
  run (ev ∷ evs) w = run evs (step ev w)

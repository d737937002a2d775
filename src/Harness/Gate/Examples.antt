-- ===== src/Harness/Gate/Examples.antt =====
-- The gate in front of a plug that asks the user, on a call that writes a file.
use hera_v.Shared.{◌≡◌, ◌≢◌, refl, Bool, true, false, none, some, List, [], ◌∷◌}
use hera_v.Shared.Text.{codes}
use hera_v.Shared.Dict.{has, insert, erase}
use hera_v.Harness.Descriptor.{Descriptor, freeze, verify_integrity, simple_hash}
use hera_v.Harness.Gate.{
  allow, pending, admitted, GateProvider, Decision, Call, execute, requested, waiting, dispatching,
  Event, start, answer, resume, reanswer, resolve, halt, World, new_world, run,
}
use hera_v.Harness.Gate.Invariant.{Fits, run-Fits}
use hera_v.Harness.Gate.Safety.{Allowed, dispatching-Allowed}
use hera_v.Harness.Gate.Halt.{halt_stops, halt_misses_answered}

-- Asks once, and allows after any decision.
abbrev asking : GateProvider
asking = record {
  State = Bool;
  admit = λ d p s. admitted "ctx";
  request = λ d s. (elim s [ true ↦ allow | false ↦ pending ], s);
  resolve = λ e d s. true;
  halt = λ r s. s;
}

abbrev descriptor : Descriptor
descriptor = record {
  effect_id = "fx_1";
  kind = "tool.call";
  target = "edit";
  content = codes "{a}";
  hash = none;
  frozen = false;
}

abbrev call : Call
call = record {
  entry = execute;
  descriptor = descriptor;
  on_pending = false;
  on_unavailable = true;
}

abbrev approved : List Event
approved =
    start call
    ∷ answer "fx_1" (codes "{a}")
    ∷ resolve "fx_1" (some Decision.allow)
    ∷ resume "fx_1"
    ∷ reanswer "fx_1" (codes "{a}")
    ∷ []

abbrev frozen : Call
frozen = record call { descriptor = freeze descriptor }

machine : Unit {0}
unfolding run new_world freeze verify_integrity simple_hash has insert erase
machine = tt

approved_dispatches :
    (run asking approved (new_world asking false)).phase "fx_1" ≡ dispatching frozen
unfolding machine
approved_dispatches = refl

run-Fits_example :
    Fits "fx_1"
      (run asking approved (new_world asking false)).gate
      ((run asking approved (new_world asking false)).phase "fx_1")
run-Fits_example = run-Fits asking false approved "fx_1"

dispatching-Allowed_example : Allowed asking false approved frozen
dispatching-Allowed_example =
    dispatching-Allowed asking false approved "fx_1" frozen approved_dispatches

-- The call asks, and the gate is halted before the user decides.
abbrev asked : World asking
asked = run asking (start call ∷ answer "fx_1" (codes "{a}") ∷ []) (new_world asking false)

asked_waits : asked.phase "fx_1" ≡ waiting frozen
unfolding machine
asked_waits = refl

halt_stops_example :
    (run asking (halt "stop" ∷ resume "fx_1" ∷ []) asked).phase "fx_1" ≢ dispatching frozen
unfolding machine
halt_stops_example = halt_stops asking asked "stop" (resume "fx_1" ∷ []) "fx_1" frozen tt

abbrev granted : World asking
granted = run asking (start call ∷ []) (new_world asking true)

granted_requested : granted.phase "fx_1" ≡ requested frozen allow
unfolding machine
granted_requested = refl

halt_misses_answered_example :
    (run asking (halt "stop" ∷ answer "fx_1" (codes "{a}") ∷ []) granted).phase "fx_1"
    ≡ dispatching frozen
unfolding machine
halt_misses_answered_example =
    halt_misses_answered asking granted "stop" "fx_1" frozen granted_requested refl

-- ===== src/Supervisor/Examples.antt =====
-- The watchdog on a turn that has fallen silent: a heartbeat each second, sixty seconds of patience.
use hera_v.Shared.{◌+◌, ◌≤◌, ◌≡◌, refl, true, false, none, some, List, [], ◌∷◌, ◌++◌, arith, max}
use hera_v.Supervisor.Watchdog.{
  Watchdog, WatchdogConfig, model_call, TickResult, Intervention, resume_unconfirmed,
  restart_request, intervention, tick, seconds_of,
}
use hera_v.Supervisor.Watchdog.Stalls.{IsStalled, tick-resume_iff, unconfirmed_restarts}
use hera_v.Supervisor.Watchdog.Budget.{
  Input, beat, timer, run, count_resumes, count_restarts, turn_budget,
}

abbrev cfg : WatchdogConfig
cfg = record { stall_timeout_ms = 60000; heartbeat_ms = 1000 }

abbrev silent_turn : Watchdog
silent_turn = record {
  last_beat_at = some 5000;
  last_event_at = some 4000;
  turn_active = true;
  phase = model_call;
  phase_since_ms = some 4000;
  phase_seen_at = some 4000;
  resumes_this_turn = 0;
  pending_resume_deadline = none;
  resume_sent_at = none;
  restart_requested = false;
}

abbrev overdue_turn : Watchdog
overdue_turn = record silent_turn { resumes_this_turn = 1; pending_resume_deadline = some 72000 }

silent_stalls : (tick cfg 70000 silent_turn).0 ≡ TickResult.resume
silent_stalls =
    let stalled : IsStalled cfg 70000 silent_turn = ground arith in
    (tick-resume_iff cfg 70000 silent_turn).1 (stalled, refl, refl, refl)

abbrev meanwhile : List Input
meanwhile =
    timer 71000
    ∷ beat 71500 (record { turn_active = true; phase = some model_call; phase_since = none })
    ∷ timer 72000
    ∷ []

unconfirmed_restarts_example :
    let reason = resume_unconfirmed (seconds_of 2000) in
    (run cfg (meanwhile ++ timer 73000 ∷ []) (tick cfg 70000 silent_turn).1).1
    ≡ restart_request reason ∷ intervention Intervention.restart_requested reason ∷ []
unconfirmed_restarts_example =
    unconfirmed_restarts cfg 70000 73000 meanwhile silent_turn silent_stalls
      (refl, (refl, (refl, tt))) (omega arith)

abbrev ticks : List Input
ticks = timer 70000 ∷ timer 71000 ∷ timer 72001 ∷ timer 73000 ∷ []

turn_budget_example :
    (count_resumes (run cfg ticks silent_turn).1 + 0 ≤ max 1 0)
    × (count_restarts (run cfg ticks silent_turn).1 + 0 ≤ 1)
turn_budget_example = turn_budget cfg ticks silent_turn (refl, (refl, (refl, (refl, tt))))

-- ===== src/Supervisor/Watchdog/Stalls.antt =====
-- When a tick resumes the Executor and when it asks for a restart.
use mathlib.Core.List.{append-nil}
use hera_v.Shared.{
  ap, ◌∙◌, Bool, List, ◌++◌, All, leb, ℕ, ◌+◌, ◌*◌, ◌≤◌, ◌<◌, ◌≡◌, ◌↔◌, ◌⊎◌, true, false, none,
  some, [], ◌∷◌, arith,
}
use hera_v.Supervisor.Watchdog.{
  Watchdog, WatchdogConfig, exec, user_message, turn_finished, generating, executor_resumed,
  on_event, on_heartbeat, tool_call, TickResult, restart, tick, last_sign, restart_request,
  intervention, restart_requested, resume_unconfirmed, seconds_of,
}
use hera_v.Supervisor.Watchdog.Budget.{Input, beat, event, timer, feed, run}

-- The deadline for the confirmation of a resume has passed.
abbrev pub IsOverdue : ℕ → Watchdog → Type 0
IsOverdue t w = (d : ℕ) × (w.pending_resume_deadline ≡ some d) × (d < t)

module _ (cfg : WatchdogConfig) where
  -- The last sign of life is known, and older than the limit.
  abbrev pub IsFrozen : ℕ → Watchdog → Type 0
  IsFrozen t w = (0 < last_sign w) × (last_sign w + cfg.stall_timeout_ms < t)

  -- A tool call has been running for longer than the limit.
  abbrev pub IsHung : ℕ → Watchdog → Type 0
  IsHung t w =
      (w.phase ≡ tool_call)
      × ((s : ℕ) × (w.phase_since_ms ≡ some s) × (s + cfg.stall_timeout_ms < t))

  abbrev pub IsStalled : ℕ → Watchdog → Type 0
  IsStalled t w = (w.turn_active ≡ true) × (IsFrozen t w ⊎ IsHung t w)

-- A tick resumes the Executor exactly when the turn is stalled for the first time: no resume was
-- sent in this turn, none waits for its confirmation, and no restart is requested.
pub tick-resume_iff :
    (cfg : WatchdogConfig) (t : ℕ) (w : Watchdog)
    → ((tick cfg t w).0 ≡ TickResult.resume) ↔ (
        IsStalled cfg t w
        × (w.restart_requested ≡ false)
        × (w.pending_resume_deadline ≡ none)
        × (w.resumes_this_turn ≡ 0))
unfolding tick
tick-resume_iff cfg t w = ground arith

-- A tick asks for a restart exactly when none is requested yet and either a resume was not
-- confirmed in time, or the turn is stalled again after a resume that was.
pub tick-restart_iff :
    (cfg : WatchdogConfig) (t : ℕ) (w : Watchdog)
    → ((tick cfg t w).0 ≡ restart) ↔ (
        (w.restart_requested ≡ false)
        × (IsOverdue t w
            ⊎ (IsStalled cfg t w × (w.pending_resume_deadline ≡ none) × (1 ≤ w.resumes_this_turn))))
unfolding tick
tick-restart_iff cfg t w = ground arith

-- What may come while a confirmation is awaited: heartbeats, ticks up to the deadline, and events that
-- do not confirm the resume, end the turn or begin another.
abbrev pub keeps_waiting : ℕ → Input → Bool
keeps_waiting deadline (beat t payload) = true
keeps_waiting deadline (timer t) = leb t deadline
keeps_waiting deadline (event t exec user_message) = false
keeps_waiting deadline (event t exec (turn_finished generating)) = false
keeps_waiting deadline (event t proc (executor_resumed restarted)) = false
keeps_waiting deadline (event t proc kind) = true

record IsAwaiting (deadline : ℕ) (w : Watchdog) : Type 0 where
  awaited : w.pending_resume_deadline ≡ some deadline
  unasked : w.restart_requested ≡ false

module _ (cfg : WatchdogConfig) where
  tick-IsAwaiting :
      (t deadline : ℕ) (w : Watchdog)
      → t ≤ deadline
      → IsAwaiting deadline w
      → ((tick cfg t w).2 ≡ []) × IsAwaiting deadline (tick cfg t w).1
  unfolding tick
  tick-IsAwaiting t deadline w h r = ground arith

  feed-IsAwaiting :
      (i : Input) (deadline : ℕ) (w : Watchdog)
      → keeps_waiting deadline i ≡ true
      → IsAwaiting deadline w
      → ((feed cfg i w).1 ≡ []) × IsAwaiting deadline (feed cfg i w).0
  unfolding feed on_event on_heartbeat
  feed-IsAwaiting (beat t payload) deadline w h r = ground arith
  feed-IsAwaiting (timer t) deadline w h r = tick-IsAwaiting t deadline w (ground arith) r
  feed-IsAwaiting (event t proc kind) deadline w h r = ground arith

  late-IsAwaiting :
      (later deadline : ℕ) (w : Watchdog)
      → deadline < later
      → IsAwaiting deadline w
      → let reason = resume_unconfirmed (seconds_of (2 * cfg.heartbeat_ms)) in
        (feed cfg (timer later) w).1
        ≡ restart_request reason ∷ intervention restart_requested reason ∷ []
  unfolding feed tick
  late-IsAwaiting later deadline w h r = ground arith

  run-late :
      (inputs : List Input) (later deadline : ℕ) (w : Watchdog)
      → All (λ i. keeps_waiting deadline i ≡ true) inputs
      → deadline < later
      → IsAwaiting deadline w
      → let reason = resume_unconfirmed (seconds_of (2 * cfg.heartbeat_ms)) in
        (run cfg (inputs ++ timer later ∷ []) w).1
        ≡ restart_request reason ∷ intervention restart_requested reason ∷ []
  unfolding run
  run-late [] later deadline w a h r =
      append-nil (feed cfg (timer later) w).1 ∙ late-IsAwaiting later deadline w h r
  run-late (i ∷ inputs) later deadline w (k, a) h r =
      let (silent_now, still) = feed-IsAwaiting i deadline w k r in
      ap (λ l. l ++ (run cfg (inputs ++ timer later ∷ []) (feed cfg i w).0).1) silent_now
      ∙ run-late inputs later deadline (feed cfg i w).0 a h still

-- A resume that is not confirmed within two heartbeats ends in a restart request: whatever heartbeats,
-- ticks and events come meanwhile, where no event confirms the resume, ends the turn or begins another,
-- the watchdog does nothing until a tick comes after that time, and then asks for a restart once and
-- gives the missing confirmation as its reason.
pub unconfirmed_restarts :
    (cfg : WatchdogConfig) (t later : ℕ) (inputs : List Input) (w : Watchdog)
    → (tick cfg t w).0 ≡ TickResult.resume
    → All (λ i. keeps_waiting (t + 2 * cfg.heartbeat_ms) i ≡ true) inputs
    → t + 2 * cfg.heartbeat_ms < later
    → let reason = resume_unconfirmed (seconds_of (2 * cfg.heartbeat_ms)) in
      (run cfg (inputs ++ timer later ∷ []) (tick cfg t w).1).1
      ≡ restart_request reason ∷ intervention restart_requested reason ∷ []
unfolding tick
unconfirmed_restarts cfg t later inputs w h k late =
    run-late cfg inputs later (t + 2 * cfg.heartbeat_ms) (tick cfg t w).1 k late
      (record { awaited = ground arith; unasked = ground arith })

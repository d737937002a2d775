-- ===== src/Supervisor/Watchdog.antt =====
-- src/supervisor/watchdog.ts: the stall watchdog. Times are in milliseconds, on the clock of
-- `Date.now`; `t - s > n` of the source is the same test on natural numbers.
use hera_v.Shared.{
  ℕ, ◌+◌, ◌*◌, ◌-◌, ◌/◌, Bool, true, false, not, ◌&&◌, ◌||◌, Option, none, some, List, [], ◌∷◌,
  if◌then◌else◌, ltb, leb, ◌==◌, or_else, is_some, max, map, all, length, take, drop,
}
use hera_v.Shared.Text.{Text}
pub mod Budget
pub mod Stalls

pub data HeartbeatPhase : Type 0 where
  idle model_call tool_call waiting_answer compacting : HeartbeatPhase

pub data StallKind : Type 0 where
  frozen tool_hang : StallKind

pub data ProcId : Type 0 where
  comm exec sup : ProcId

pub data Role : Type 0 where
  generating compacting supervisor memory : Role

pub record WatchdogConfig : Type 0 where
  pub stall_timeout_ms : ℕ
  pub heartbeat_ms : ℕ

-- The texts of the source, with the seconds that they show.
pub data Reason : Type 0 where
  resume_unconfirmed : ℕ → Reason
  tool_still_running : ℕ → Reason
  silent_again : ℕ → Reason
  tool_running : ℕ → Reason
  silent : ℕ → Reason

pub data Intervention : Type 0 where
  stall_resume restart_requested : Intervention

-- The calls of `WatchdogActions`, in order.
pub data Action : Type 0 where
  resume : StallKind → HeartbeatPhase → Action
  restart_request : Reason → Action
  intervention : Intervention → Reason → Action

pub data TickResult : Type 0 where
  nothing resume restart : TickResult

pub record Watchdog : Type 0 where
  pub last_beat_at : Option ℕ
  pub last_event_at : Option ℕ
  pub turn_active : Bool
  pub phase : HeartbeatPhase
  pub phase_since_ms : Option ℕ
  pub phase_seen_at : Option ℕ
  pub resumes_this_turn : ℕ
  pub pending_resume_deadline : Option ℕ
  pub resume_sent_at : Option ℕ
  pub restart_requested : Bool

unfoldable pub new_watchdog : Watchdog
new_watchdog = record {
  last_beat_at = none;
  last_event_at = none;
  turn_active = false;
  phase = idle;
  phase_since_ms = none;
  phase_seen_at = none;
  resumes_this_turn = 0;
  pending_resume_deadline = none;
  resume_sent_at = none;
  restart_requested = false;
}

pub record Heartbeat : Type 0 where
  pub turn_active : Bool
  pub phase : Option HeartbeatPhase
  pub phase_since : Option ℕ  -- already parsed

abbrev first_of_two : Option ℕ → Option ℕ → Option ℕ
first_of_two none b = b
first_of_two (some a) b = some a

abbrev same_phase : HeartbeatPhase → HeartbeatPhase → Bool
same_phase idle idle = true
same_phase model_call model_call = true
same_phase tool_call tool_call = true
same_phase waiting_answer waiting_answer = true
same_phase compacting compacting = true
same_phase _ _ = false

pub on_heartbeat : ℕ → Heartbeat → Watchdog → Watchdog
on_heartbeat t payload w =
    let phase = or_else payload.phase idle in
    let changed = not (same_phase phase w.phase) || not (is_some w.phase_seen_at) in
    let seen = if changed then some t else w.phase_seen_at in
    record w {
      last_beat_at = some t;
      turn_active = payload.turn_active;
      phase = phase;
      phase_seen_at = seen;
      phase_since_ms = first_of_two payload.phase_since seen;
    }

-- What the watchdog looks at in an event.
pub data EventKind : Type 0 where
  user_message : EventKind
  turn_finished : Role → EventKind
  executor_resumed : Bool → EventKind  -- whether its reason is "restart"
  other : EventKind

-- Executor exit or restart; `resumeSentAt` stays as it is.
pub reset : Watchdog → Watchdog
reset w = record w {
  last_beat_at = none;
  last_event_at = none;
  turn_active = false;
  phase = idle;
  phase_since_ms = none;
  phase_seen_at = none;
  resumes_this_turn = 0;
  pending_resume_deadline = none;
  restart_requested = false;
}

abbrev seen_event : ProcId → ℕ → Watchdog → Watchdog
seen_event exec t w = record w { last_event_at = some t }
seen_event _ t w = w

on_event_kind : ProcId → EventKind → Watchdog → Watchdog
unfolding reset
on_event_kind exec user_message w = record w {
  turn_active = true;
  resumes_this_turn = 0;
  restart_requested = false;
  pending_resume_deadline = none;
}
on_event_kind exec (turn_finished generating) w = record w {
  turn_active = false;
  pending_resume_deadline = none;
}
on_event_kind proc (executor_resumed restarted) w =
    let w' = record w { resume_sent_at = none; pending_resume_deadline = none } in
    if restarted then reset w' else w'
on_event_kind _ _ w = w

pub on_event : ℕ → ProcId → EventKind → Watchdog → Watchdog
unfolding on_event_kind
on_event t proc kind w = on_event_kind proc kind (seen_event proc t w)

abbrev pub last_sign : Watchdog → ℕ
last_sign w = max (or_else w.last_beat_at 0) (or_else w.last_event_at 0)

pub silent_ms : ℕ → Watchdog → ℕ
silent_ms now w = if ltb 0 (last_sign w) then now - last_sign w else 0

-- `Math.round(ms / 1000)`
abbrev pub seconds_of : ℕ → ℕ
seconds_of ms = (ms + 500) / 1000

escalate : Reason → Watchdog → Watchdog × List Action
escalate reason w = (
  record w { restart_requested = true; pending_resume_deadline = none },
  restart_request reason ∷ intervention restart_requested reason ∷ [],
)

abbrev since : ℕ → Option ℕ → ℕ
since t s = t - or_else s t

abbrev pub is_tool_call : HeartbeatPhase → Bool
is_tool_call tool_call = true
is_tool_call _ = false

abbrev pub older : ℕ → Option ℕ → ℕ → Bool
older t none limit = false
older t (some s) limit = ltb limit (t - s)

abbrev pub passed : ℕ → Option ℕ → Bool
passed t none = false
passed t (some deadline) = ltb deadline t

module _ (cfg : WatchdogConfig) where
  abbrev pub is_frozen : ℕ → Watchdog → Bool
  is_frozen t w = ltb 0 (last_sign w) && ltb cfg.stall_timeout_ms (t - last_sign w)

  abbrev pub is_hung : ℕ → Watchdog → Bool
  is_hung t w = is_tool_call w.phase && older t w.phase_since_ms cfg.stall_timeout_ms

  again : Bool → ℕ → Watchdog → Reason
  again hung t w =
      if hung
      then tool_still_running (seconds_of (since t w.phase_since_ms))
      else silent_again (seconds_of (t - last_sign w))

  first_time : Bool → ℕ → Watchdog → Reason
  first_time hung t w =
      if hung
      then tool_running (seconds_of (since t w.phase_since_ms))
      else silent (seconds_of (t - last_sign w))

  send_resume : Bool → ℕ → Watchdog → Watchdog × List Action
  unfolding first_time
  send_resume hung t w = (
    record w {
      resumes_this_turn = w.resumes_this_turn + 1;
      pending_resume_deadline = some (t + 2 * cfg.heartbeat_ms);
      resume_sent_at = some t;
      phase_since_ms = if hung then some t else w.phase_since_ms;
    },
    resume (if hung then tool_hang else frozen) w.phase
        ∷ intervention stall_resume (first_time hung t w)
        ∷ [],
  )

  abbrev quiet : Watchdog → TickResult × Watchdog × List Action
  quiet w = (nothing, w, [])

  abbrev answer : TickResult → Watchdog × List Action → TickResult × Watchdog × List Action
  answer r (w, actions) = (r, w, actions)

  on_stall : ℕ → Watchdog → TickResult × Watchdog × List Action
  unfolding escalate send_resume again
  on_stall t w =
      if is_some w.pending_resume_deadline
      then quiet w
      else if leb 1 w.resumes_this_turn
      then answer TickResult.restart (escalate (again (is_hung t w) t w) w)
      else answer TickResult.resume (send_resume (is_hung t w) t w)

  pub tick : ℕ → Watchdog → TickResult × Watchdog × List Action
  unfolding on_stall escalate
  tick t w =
      if w.restart_requested
      then quiet w
      else if passed t w.pending_resume_deadline
      then answer TickResult.restart
          (escalate (resume_unconfirmed (seconds_of (2 * cfg.heartbeat_ms))) w)
      else if not w.turn_active
      then quiet w
      else if not (is_frozen t w) && not (is_hung t w)
      then quiet w
      else on_stall t w

-- ===== src/Supervisor/Watchdog/Budget.antt =====
-- How often the watchdog acts in one turn, whatever it sees and in whatever order.
use hera_v.Shared.{ℕ, suc, ◌+◌, ◌≤◌, ◌≡◌, Bool, true, false, List, [], ◌∷◌, ◌++◌, arith, max, All}
use hera_v.Supervisor.Watchdog.{
  Watchdog, WatchdogConfig, ProcId, exec, EventKind, user_message, executor_resumed, Heartbeat,
  on_heartbeat, on_event, tick, Action, resume, restart_request,
}

pub data Input : Type 0 where
  beat : ℕ → Heartbeat → Input
  event : ℕ → ProcId → EventKind → Input
  timer : ℕ → Input

-- What starts a turn afresh: a prompt, or the resume of a restarted Executor.
abbrev pub rearms : Input → Bool
rearms (event t exec user_message) = true
rearms (event t proc (executor_resumed restarted)) = restarted
rearms _ = false

module _ (cfg : WatchdogConfig) where
  unfoldable pub feed : Input → Watchdog → Watchdog × List Action
  feed (beat t payload) w = (on_heartbeat t payload w, [])
  feed (event t proc kind) w = (on_event t proc kind w, [])
  feed (timer t) w = let (result, w', actions) = tick cfg t w in (w', actions)

  unfoldable pub run : List Input → Watchdog → Watchdog × List Action
  unfolding feed
  run [] w = (w, [])
  run (i ∷ inputs) w =
      let (w', actions) = feed i w in let (w'', more) = run inputs w' in (w'', actions ++ more)

abbrev pub count_resumes : List Action → ℕ
count_resumes [] = 0
count_resumes (resume kind phase ∷ actions) = suc (count_resumes actions)
count_resumes (_ ∷ actions) = count_resumes actions

abbrev pub count_restarts : List Action → ℕ
count_restarts [] = 0
count_restarts (restart_request reason ∷ actions) = suc (count_restarts actions)
count_restarts (_ ∷ actions) = count_restarts actions

count_resumes-append :
    (xs ys : List Action) → count_resumes (xs ++ ys) ≡ count_resumes xs + count_resumes ys
count_resumes-append [] ys = omega arith
count_resumes-append (resume kind phase ∷ xs) ys = omega (arith, count_resumes-append xs ys)
count_resumes-append (_ ∷ xs) ys = count_resumes-append xs ys

count_restarts-append :
    (xs ys : List Action) → count_restarts (xs ++ ys) ≡ count_restarts xs + count_restarts ys
count_restarts-append [] ys = omega arith
count_restarts-append (restart_request reason ∷ xs) ys = omega (arith, count_restarts-append xs ys)
count_restarts-append (_ ∷ xs) ys = count_restarts-append xs ys

abbrev pub flag : Bool → ℕ
flag true = 1
flag false = 0

module _ (cfg : WatchdogConfig) where
  -- What one input uses up.
  record Spends (w w' : Watchdog) (actions : List Action) : Type 0 where
    resumes : count_resumes actions + w.resumes_this_turn ≡ w'.resumes_this_turn
    resumes_max : w'.resumes_this_turn ≤ max 1 w.resumes_this_turn
    restarts : count_restarts actions + flag w.restart_requested ≡ flag w'.restart_requested

  tick-Spends : (t : ℕ) (w : Watchdog) → Spends w (tick cfg t w).1 (tick cfg t w).2
  unfolding tick
  tick-Spends t w = record {
    resumes = ground arith;
    resumes_max = ground arith;
    restarts = ground arith;
  }

  on_event-Spends :
      (t : ℕ) (proc : ProcId) (kind : EventKind) (w : Watchdog)
      → rearms (event t proc kind) ≡ false
      → Spends w (on_event t proc kind w) []
  unfolding on_event
  on_event-Spends t proc kind w r = ground arith

  feed-Spends :
      (i : Input) (w : Watchdog) → rearms i ≡ false → Spends w (feed cfg i w).0 (feed cfg i w).1
  unfolding feed on_heartbeat
  feed-Spends (beat t payload) w r = ground arith
  feed-Spends (event t proc kind) w r = on_event-Spends t proc kind w r
  feed-Spends (timer t) w r = tick-Spends t w

  run-Spends :
      (inputs : List Input) (w : Watchdog)
      → All (λ i. rearms i ≡ false) inputs
      → Spends w (run cfg inputs w).0 (run cfg inputs w).1
  unfolding run
  run-Spends [] w h = ground arith
  run-Spends (i ∷ inputs) w (r, h) =
      let first = feed-Spends i w r in
      let rest = run-Spends inputs (feed cfg i w).0 h in
      let more = (run cfg inputs (feed cfg i w).0).1 in
      record {
        resumes =
            omega (arith, first.resumes, rest.resumes, count_resumes-append (feed cfg i w).1 more);
        resumes_max = omega (arith, first.resumes_max, rest.resumes_max);
        restarts =
            omega
              (arith, first.restarts, rest.restarts, count_restarts-append (feed cfg i w).1 more);
      }

-- Within one turn, whatever heartbeats, events and ticks follow in whatever order, the watchdog
-- resumes the Executor at most once and asks for a restart at most once, and not even once if it
-- had already done so.
pub turn_budget :
    (cfg : WatchdogConfig) (inputs : List Input) (w : Watchdog)
    → All (λ i. rearms i ≡ false) inputs
    → (count_resumes (run cfg inputs w).1 + w.resumes_this_turn ≤ max 1 w.resumes_this_turn)
      × (count_restarts (run cfg inputs w).1 + flag w.restart_requested ≤ 1)
turn_budget cfg inputs w h =
    let s = run-Spends cfg inputs w h in
    (omega (arith, s.resumes, s.resumes_max), ground (arith, s.restarts))

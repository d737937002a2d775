-- ===== src/Process/Lifecycle.antt =====
-- src/process/lifecycle.ts: the restart budget, the decision on an Executor's exit, the ordered
-- shutdown. What the children and the operating system answer are parameters.
use hera_v.Shared.{
  ℕ, ◌+◌, ◌≤◌, Bool, true, false, not, ◌&&◌, Option, none, some, List, [], ◌∷◌, ◌++◌, if◌then◌else◌,
  ltb, leb, length, keep_if,
}
pub mod Budget
pub mod Shutdown

pub record RestartBudget : Type 0 where
  pub per_turn_max : ℕ
  pub idle_max : ℕ
  pub idle_window_ms : ℕ
  pub turn_used : ℕ
  pub idle_exit_times : List ℕ

unfoldable pub new_budget : ℕ → ℕ → ℕ → RestartBudget
new_budget per_turn_max idle_max idle_window_ms = record {
  per_turn_max = per_turn_max;
  idle_max = idle_max;
  idle_window_ms = idle_window_ms;
  turn_used = 0;
  idle_exit_times = [];
}

unfoldable pub turn_started : RestartBudget → RestartBudget
turn_started b = record b { turn_used = 0 }

unfoldable pub reset_idle : RestartBudget → RestartBudget
reset_idle b = record b { idle_exit_times = [] }

unfoldable pub try_consume_turn : RestartBudget → Bool × RestartBudget
try_consume_turn b =
    if leb b.per_turn_max b.turn_used
    then (false, b)
    else (true, record b { turn_used = b.turn_used + 1 })

-- `now - t < window`, also where the clock has gone back.
abbrev pub within : ℕ → ℕ → ℕ → Bool
within now window t = ltb now (t + window)

unfoldable pub try_consume_idle : ℕ → RestartBudget → Bool × RestartBudget
try_consume_idle now b =
    let times = keep_if (within now b.idle_window_ms) b.idle_exit_times ++ now ∷ [] in
    (leb (length times) b.idle_max, record b { idle_exit_times = times })

unfoldable pub idle_exhausted : RestartBudget → Bool
idle_exhausted b = ltb b.idle_max (length b.idle_exit_times)

pub data ExitAction : Type 0 where
  respawn_resume end_turn respawn_idle stop_idle : ExitAction

unfoldable pub decide_on_exit : Bool → ℕ → RestartBudget → ExitAction × RestartBudget
unfolding try_consume_turn try_consume_idle
decide_on_exit turn_active now b =
    if turn_active
    then (let (granted, b') = try_consume_turn b in
        (if granted then respawn_resume else end_turn, b'))
    else let (granted, b') = try_consume_idle now b in
      (if granted then respawn_idle else stop_idle, b')

pub data ChildRole : Type 0 where
  executor supervisor : ChildRole

-- A target with what its process does: it may be dead, and it exits with a code (null for a
-- signal) or not at all in the time that it has.
pub record ShutdownTarget : Type 0 where
  pub role : ChildRole
  pub alive : Bool
  pub exit : Option (Option ℕ)
  pub last_children : List ℕ

pub record ExitCodes : Type 0 where
  pub executor_code : Option (Option ℕ)
  pub supervisor_code : Option (Option ℕ)

pub record ShutdownResult : Type 0 where
  pub killed : List ChildRole
  pub exit_codes : ExitCodes
  pub orphans_survived : List ℕ

-- What the Communicator does to the processes, in order.
pub data Effect : Type 0 where
  send_shutdown : ChildRole → Effect
  kill : ChildRole → Effect
  kill_pid : ℕ → Effect

abbrev pub is_executor : ChildRole → Bool
is_executor executor = true
is_executor supervisor = false

-- The sort of the source puts the Executor first and keeps the order of the others; there is at
-- most one Executor.
unfoldable pub order_targets : List ShutdownTarget → List ShutdownTarget
order_targets targets =
    keep_if (λ t. is_executor t.role) targets ++ keep_if (λ t. not (is_executor t.role)) targets

abbrev set_code : ChildRole → Option ℕ → ExitCodes → ExitCodes
set_code executor code codes = record codes { executor_code = some code }
set_code supervisor code codes = record codes { supervisor_code = some code }

abbrev is_nil : List ℕ → Bool
is_nil [] = true
is_nil (x ∷ xs) = false

-- `gone` says that the first `process.kill` throws, `dead` that the second one does.
module _ (gone dead : ℕ → Bool) where
  unfoldable pub reap_orphans : List ℕ → List ℕ × List Effect
  reap_orphans [] = ([], [])
  reap_orphans (pid ∷ pids) =
      let (survivors, effects) = reap_orphans pids in
      if gone pid
      then (survivors, effects)
      else (if dead pid then survivors else pid ∷ survivors, kill_pid pid ∷ effects)

  -- Waiting for the exit, and killing a child that does not exit in time.
  abbrev await_exit : ShutdownTarget → ShutdownResult → ShutdownResult × List Effect
  await_exit target r = elim target.exit [
    | none ↦ (
      record r {
        killed = r.killed ++ target.role ∷ [];
        exit_codes = set_code target.role none r.exit_codes;
      },
      send_shutdown target.role ∷ kill target.role ∷ [],
    )
    | some code ↦ (
      record r { exit_codes = set_code target.role code r.exit_codes },
      send_shutdown target.role ∷ [],
    )
  ]

  abbrev reap_children : ShutdownTarget → ShutdownResult → ShutdownResult × List Effect
  reap_children target r =
      if is_executor target.role && not (is_nil target.last_children)
      then (let (survivors, effects) = reap_orphans target.last_children in
          (record r { orphans_survived = r.orphans_survived ++ survivors }, effects))
      else (r, [])

  -- The body of the loop of `shutdownAll`.
  unfoldable pub shutdown_one : ShutdownTarget → ShutdownResult → ShutdownResult × List Effect
  unfolding reap_orphans
  shutdown_one target r =
      if target.alive
      then (let (r', effects) = await_exit target r in
          let (r'', reaped) = reap_children target r' in (r'', effects ++ reaped))
      else (record r { exit_codes = set_code target.role none r.exit_codes }, [])

  unfoldable pub shutdown_in_order :
      List ShutdownTarget → ShutdownResult → ShutdownResult × List Effect
  unfolding shutdown_one
  shutdown_in_order [] r = (r, [])
  shutdown_in_order (target ∷ targets) r =
      let (r', effects) = shutdown_one target r in
      let (r'', more) = shutdown_in_order targets r' in (r'', effects ++ more)

  unfoldable pub shutdown_all : List ShutdownTarget → ShutdownResult × List Effect
  unfolding shutdown_in_order order_targets
  shutdown_all targets = shutdown_in_order (order_targets targets) (record {
    killed = [];
    exit_codes = record { executor_code = none; supervisor_code = none };
    orphans_survived = [];
  })

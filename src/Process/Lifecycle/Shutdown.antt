-- ===== src/Process/Lifecycle/Shutdown.antt =====
-- The ordered shutdown.
use mathlib.Core.List.{append-nil, append_assoc}
use hera_v.Shared.{
  ℕ, ◌≡◌, refl, Bool, true, false, not, ◌&&◌, none, some, List, [], ◌∷◌, ◌++◌, arith, if◌then◌else◌,
  keep_if, ◌∙◌, ap, sym,
}
use hera_v.Process.Lifecycle.{
  ShutdownTarget, ShutdownResult, Effect, send_shutdown, kill, ChildRole, is_executor,
  order_targets, reap_orphans, shutdown_one, shutdown_in_order, shutdown_all,
}

-- What happens to one target, spelled out: nothing if it is dead; else it is asked, killed if it
-- does not exit in time, and its tool children are reaped if it is the Executor.
abbrev pub effects_of : (ℕ → Bool) → (ℕ → Bool) → ShutdownTarget → List Effect
effects_of gone dead t =
    if t.alive
    then (send_shutdown t.role ∷ elim t.exit [ none ↦ kill t.role ∷ [] | some code ↦ [] ])
      ++ (if is_executor t.role then (reap_orphans gone dead t.last_children).1 else [])
    else []

module _ (gone dead : ℕ → Bool) where
  shutdown_one-effects :
      (t : ShutdownTarget) (r : ShutdownResult)
      → (shutdown_one gone dead t r).1 ≡ effects_of gone dead t
  unfolding shutdown_one
  shutdown_one-effects t r = ground arith

  abbrev pub effects_of_all : List ShutdownTarget → List Effect
  effects_of_all [] = []
  effects_of_all (t ∷ ts) = effects_of gone dead t ++ effects_of_all ts

  effects_of_all-append :
      (xs ys : List ShutdownTarget)
      → effects_of_all (xs ++ ys) ≡ effects_of_all xs ++ effects_of_all ys
  effects_of_all-append [] ys = refl
  effects_of_all-append (x ∷ xs) ys =
      ap (λ l. effects_of gone dead x ++ l) (effects_of_all-append xs ys)
      ∙ sym (append_assoc (effects_of gone dead x) (effects_of_all xs) (effects_of_all ys))

  shutdown_in_order-effects :
      (ts : List ShutdownTarget) (r : ShutdownResult)
      → (shutdown_in_order gone dead ts r).1 ≡ effects_of_all ts
  unfolding shutdown_in_order
  shutdown_in_order-effects [] r = refl
  shutdown_in_order-effects (t ∷ ts) r =
      ap (λ l. l ++ (shutdown_in_order gone dead ts (shutdown_one gone dead t r).0).1)
        (shutdown_one-effects t r)
      ∙ ap (λ l. effects_of gone dead t ++ l)
          (shutdown_in_order-effects ts (shutdown_one gone dead t r).0)

-- The shutdown deals with the Executor and its tool children before it does anything to the
-- other children, and with each target as it stands: a dead one is left alone, a live one is asked
-- to stop, and killed exactly if it does not exit in time.
pub shutdown_all-effects :
    (gone dead : ℕ → Bool) (targets : List ShutdownTarget)
    → (shutdown_all gone dead targets).1
      ≡ effects_of_all gone dead (keep_if (λ t. is_executor t.role) targets)
        ++ effects_of_all gone dead (keep_if (λ t. not (is_executor t.role)) targets)
unfolding shutdown_all
shutdown_all-effects gone dead targets =
    shutdown_in_order-effects gone dead (order_targets targets) _
    ∙ effects_of_all-append gone dead (keep_if (λ t. is_executor t.role) targets)
        (keep_if (λ t. not (is_executor t.role)) targets)

abbrev pub overdue : ShutdownTarget → Bool
overdue t = t.alive && elim t.exit [ none ↦ true | some code ↦ false ]

abbrev pub children_of : ShutdownTarget → List ℕ
children_of t = if t.alive && is_executor t.role then t.last_children else []

abbrev pub overdue_roles : List ShutdownTarget → List ChildRole
overdue_roles [] = []
overdue_roles (t ∷ ts) = (if overdue t then t.role ∷ [] else []) ++ overdue_roles ts

-- The children that the two signals leave alive.
abbrev pub survivors_of : (ℕ → Bool) → (ℕ → Bool) → List ShutdownTarget → List ℕ
survivors_of gone dead [] = []
survivors_of gone dead (t ∷ ts) =
    keep_if (λ pid. not (gone pid) && not (dead pid)) (children_of t) ++ survivors_of gone dead ts

reap_orphans-survivors :
    (gone dead : ℕ → Bool) (pids : List ℕ)
    → (reap_orphans gone dead pids).0 ≡ keep_if (λ pid. not (gone pid) && not (dead pid)) pids
unfolding reap_orphans
reap_orphans-survivors gone dead [] = refl
reap_orphans-survivors gone dead (pid ∷ pids) =
    ground (arith, reap_orphans-survivors gone dead pids)

module _ (gone dead : ℕ → Bool) where
  shutdown_one-report :
      (t : ShutdownTarget) (r : ShutdownResult)
      → ((shutdown_one gone dead t r).0.killed
          ≡ r.killed ++ (if overdue t then t.role ∷ [] else []))
        × ((shutdown_one gone dead t r).0.orphans_survived
            ≡ r.orphans_survived
              ++ keep_if (λ pid. not (gone pid) && not (dead pid)) (children_of t))
  unfolding shutdown_one
  shutdown_one-report t r = ground (
    arith,
    append-nil r.killed,
    append-nil r.orphans_survived,
    reap_orphans-survivors gone dead t.last_children,
  )

  shutdown_in_order-report :
      (ts : List ShutdownTarget) (r : ShutdownResult)
      → ((shutdown_in_order gone dead ts r).0.killed ≡ r.killed ++ overdue_roles ts)
        × ((shutdown_in_order gone dead ts r).0.orphans_survived
            ≡ r.orphans_survived ++ survivors_of gone dead ts)
  unfolding shutdown_in_order
  shutdown_in_order-report [] r = (sym (append-nil _), sym (append-nil _))
  shutdown_in_order-report (t ∷ ts) r =
      let (killed, orphans) = shutdown_one-report t r in
      let (more_killed, more_orphans) =
        shutdown_in_order-report ts (shutdown_one gone dead t r).0 in
      (
        more_killed
            ∙ ap (λ l. l ++ overdue_roles ts) killed
            ∙ append_assoc r.killed (if overdue t then t.role ∷ [] else []) (overdue_roles ts),
        more_orphans
            ∙ ap (λ l. l ++ survivors_of gone dead ts) orphans
            ∙ append_assoc r.orphans_survived
                (keep_if (λ pid. not (gone pid) && not (dead pid)) (children_of t))
                (survivors_of gone dead ts),
      )

-- The report of the shutdown is right: it names as killed the live targets that did not exit in
-- time, and as surviving orphans the Executor's tool children that outlived both signals.
pub shutdown_all-report :
    (gone dead : ℕ → Bool) (targets : List ShutdownTarget)
    → let result = (shutdown_all gone dead targets).0 in
      (result.killed ≡ overdue_roles (order_targets targets))
      × (result.orphans_survived ≡ survivors_of gone dead (order_targets targets))
unfolding shutdown_all
shutdown_all-report gone dead targets = shutdown_in_order-report gone dead (order_targets targets) _

-- ===== src/Process/Lifecycle/Budget.antt =====
-- How many restarts the budget grants.
use mathlib.Core.Path.{subst}
use mathlib.Core.List.{append_assoc, append-nil}
use hera_v.Shared.{
  ℕ, ◌+◌, ◌-◌, ◌≤◌, ◌<◌, ◌≡◌, refl, sym, ap, ◌∙◌, ◌↔◌, Bool, true, false, List, [], ◌∷◌, ◌++◌, All,
  arith, min, length, length-append, keep_if,
}
use hera_v.Process.Lifecycle.{
  RestartBudget, turn_started, within, decide_on_exit, respawn_resume, respawn_idle, ExitAction,
  new_budget,
}

abbrev pub one_if_resumed : ExitAction → ℕ
one_if_resumed respawn_resume = 1
one_if_resumed _ = 0

-- The exits of one turn, at any times: how many are answered by a respawn.
pub resumed_in_turn : List ℕ → RestartBudget → ℕ
unfolding decide_on_exit
resumed_in_turn [] b = 0
resumed_in_turn (now ∷ times) b =
    let (action, b') = decide_on_exit true now b in one_if_resumed action + resumed_in_turn times b'

resumed_from :
    (times : List ℕ) (b : RestartBudget)
    → resumed_in_turn times b ≡ min (length times) (b.per_turn_max - b.turn_used)
unfolding resumed_in_turn
resumed_from [] b = omega arith
resumed_from (now ∷ times) b =
    ground
      (arith, resumed_from times b, resumed_from times (record b { turn_used = b.turn_used + 1 }))

-- In one turn the Executor is respawned once for each exit until the turn's budget is used up, and
-- never after that.
pub turn_restarts :
    (times : List ℕ) (b : RestartBudget)
    → resumed_in_turn times (turn_started b) ≡ min (length times) b.per_turn_max
unfolding turn_started
turn_restarts times b = omega (arith, resumed_from times (record b { turn_used = 0 }))

-- The exits between turns, in order.
pub after_idle : List ℕ → RestartBudget → RestartBudget
unfolding decide_on_exit
after_idle [] b = b
after_idle (now ∷ times) b = after_idle times (decide_on_exit false now b).1

keep_if-append :
    (p : ℕ → Bool) (xs ys : List ℕ) → keep_if p (xs ++ ys) ≡ keep_if p xs ++ keep_if p ys
keep_if-append p [] ys = refl
keep_if-append p (x ∷ xs) ys = ground (arith, keep_if-append p xs ys)

-- What an earlier window has dropped, a later one drops too.
keep_if-within :
    (now later window : ℕ) (ts : List ℕ)
    → now ≤ later
    → keep_if (within later window) (keep_if (within now window) ts)
      ≡ keep_if (within later window) ts
keep_if-within now later window [] h = refl
keep_if-within now later window (t ∷ ts) h = ground (arith, keep_if-within now later window ts h)

-- Of the exits at the times `past`, the budget holds those that a later window still covers.
abbrev Holds : List ℕ → RestartBudget → Type 0
Holds past b =
    (later : ℕ)
    → All (λ t. t ≤ later) past
    → keep_if (within later b.idle_window_ms) b.idle_exit_times
      ≡ keep_if (within later b.idle_window_ms) past

All-init : (P : ℕ → Type 0) (xs ys : List ℕ) → All P (xs ++ ys) → All P xs × All P ys
All-init P [] ys h = (tt, h)
All-init P (x ∷ xs) ys (p, h) = let (l, r) = All-init P xs ys h in ((p, l), r)

idle-Holds :
    (past : List ℕ) (next : ℕ) (b : RestartBudget)
    → Holds past b
    → Holds (past ++ next ∷ []) (decide_on_exit false next b).1
unfolding decide_on_exit
idle-Holds past next b h later below =
    let p = within later b.idle_window_ms in
    let (before, latest) = All-init (λ t. t ≤ later) past (next ∷ []) below in
    keep_if-append p (keep_if (within next b.idle_window_ms) b.idle_exit_times) (next ∷ [])
    ∙ ap (λ x. x ++ keep_if p (next ∷ []))
        (keep_if-within next later b.idle_window_ms b.idle_exit_times latest.0 ∙ h later before)
    ∙ sym (keep_if-append p past (next ∷ []))

after_idle-Holds :
    (past times : List ℕ) (b : RestartBudget)
    → Holds past b
    → Holds (past ++ times) (after_idle times b)
unfolding after_idle
after_idle-Holds past [] b h = subst (λ l. Holds l b) (sym (append-nil past)) h
after_idle-Holds past (t ∷ times) b h =
    subst (λ l. Holds l (after_idle times (decide_on_exit false t b).1))
      (append_assoc past (t ∷ []) times)
      (after_idle-Holds (past ++ t ∷ []) times (decide_on_exit false t b).1 (idle-Holds past t b h))

after_idle-kept :
    (times : List ℕ) (b : RestartBudget)
    → ((after_idle times b).idle_window_ms ≡ b.idle_window_ms)
      × ((after_idle times b).idle_max ≡ b.idle_max)
unfolding after_idle decide_on_exit
after_idle-kept [] b = (refl, refl)
after_idle-kept (t ∷ times) b = after_idle-kept times (decide_on_exit false t b).1

idle_granted_iff :
    (now : ℕ) (b : RestartBudget)
    → ((decide_on_exit false now b).0 ≡ respawn_idle)
      ↔ (length (keep_if (within now b.idle_window_ms) b.idle_exit_times) + 1 ≤ b.idle_max)
unfolding decide_on_exit
idle_granted_iff now b =
    ground
      (arith, length-append (keep_if (within now b.idle_window_ms) b.idle_exit_times) (now ∷ []))

-- After any exits between turns, one more exit at a time that is not before theirs is answered by
-- a respawn exactly when fewer than the allowed number of them lie in the window before it.
pub idle_respawn_iff :
    (times : List ℕ) (now per_turn_max idle_max window : ℕ)
    → All (λ t. t ≤ now) times
    → ((decide_on_exit false now (after_idle times (new_budget per_turn_max idle_max window))).0
        ≡ respawn_idle)
      ↔ (length (keep_if (within now window) times) < idle_max)
unfolding new_budget
idle_respawn_iff times now per_turn_max idle_max window below =
    let b = new_budget per_turn_max idle_max window in
    let held = after_idle-Holds [] times b (λ later h. refl) now below in
    let (same_window, same_max) = after_idle-kept times b in
    let counted = ap length held ∙ ap (λ w. length (keep_if (within now w) times)) same_window in
    let (only, enough) = idle_granted_iff now (after_idle times b) in
    (
      λ granted. omega (arith, only granted, counted, same_max),
      λ few. enough (omega (arith, counted, same_max)),
    )

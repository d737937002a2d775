-- ===== src/Communicator/Core/Restarts.antt =====
-- How often a Communicator restarts its Executor.
use hera_v.Shared.{
  ℕ, ◌+◌, ◌-◌, ◌≡◌, ◌∙◌, ◌∙◌, Bool, true, false, List, [], ◌∷◌, arith, if◌then◌else◌,
}
use hera_v.Process.Lifecycle.{ChildRole, executor, supervisor}
use hera_v.Communicator.Store.{Communicator, Then}
use hera_v.Communicator.Spawning.{respawn}
use hera_v.Communicator.Core.{Input, submits}

abbrev pub per_turn : Communicator → ℕ
per_turn c = c.state.budget.per_turn_max

abbrev left_of : Communicator → ℕ
left_of c = per_turn c - c.state.budget.turn_used

-- The restarts that were made, and those that the turn has left.
abbrev pub potential : Communicator → ℕ
potential c = c.state.restarts_this_session + left_of c

record IsSaving (c c' : Communicator) : Type 0 where
  same_max : per_turn c' ≡ per_turn c
  same_potential : potential c' ≡ potential c

respawn-IsSaving : (role : ChildRole) (k : Then) (c : Communicator) → IsSaving c (respawn role k c)
unfolding respawn
respawn-IsSaving executor k c = ground arith
respawn-IsSaving supervisor k c = ground arith

abbrev is_submission : Input → Bool
is_submission (submits now p) = true
is_submission _ = false

-- The prompts that the frontend submits.
abbrev pub submissions : List Input → ℕ
submissions [] = 0
submissions (i ∷ is) = (if is_submission i then 1 else 0) + submissions is

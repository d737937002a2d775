-- ===== src/Communicator/Core/Halted/Waiting.antt =====
-- The prompts that the Communicator has sent, and those that wait for an Executor to start.
use hera_v.Shared.{
  ℕ, ◌+◌, not, ◌&&◌, map, keep_if, if◌then◌else◌, ◌≡◌, refl, Bool, true, false, List, [], ◌∷◌,
  arith,
}
use hera_v.Process.Lifecycle.{ChildRole}
use hera_v.Communicator.State.{Prompt}
use hera_v.Communicator.Store.{
  Communicator, is_child, LiveChild, Sent, session_open, prompt, answer, cancel, resolve, halt,
  continue, Action, sends, relays, shows, notices, asks, kills, spawns, ends_turn, rejects, Then,
  nothing, send_the_prompt, resume_the_turn, Stage, awaits_hello, awaits_open, settled, find_child,
}
use hera_v.Communicator.Spawning.{stage_of, stage_in, is_turn_active}

abbrev pub prompts_of_sent : Sent → List Prompt → List Prompt
prompts_of_sent (prompt p) ps = p ∷ ps
prompts_of_sent session_open ps = ps
prompts_of_sent (answer text) ps = ps
prompts_of_sent cancel ps = ps
prompts_of_sent (resolve id allowed) ps = ps
prompts_of_sent halt ps = ps
prompts_of_sent (continue proceed) ps = ps
prompts_of_sent (Sent.ack id) ps = ps

-- The prompts that were sent to an Executor.
abbrev pub prompts_of : List Action → List Prompt
prompts_of [] = []
prompts_of (sends role epoch id what ∷ xs) = prompts_of_sent what (prompts_of xs)
prompts_of (shows e ∷ xs) = prompts_of xs
prompts_of (relays role epoch id ∷ xs) = prompts_of xs
prompts_of (notices n ∷ xs) = prompts_of xs
prompts_of (asks ask ∷ xs) = prompts_of xs
prompts_of (kills role epoch ∷ xs) = prompts_of xs
prompts_of (spawns role epoch ∷ xs) = prompts_of xs
prompts_of (ends_turn ∷ xs) = prompts_of xs
prompts_of (rejects type ∷ xs) = prompts_of xs

abbrev pub is_free_then : Then → Bool
is_free_then nothing = true
is_free_then (send_the_prompt p) = false
is_free_then (resume_the_turn p) = false

abbrev pub is_free : Stage → Bool
is_free (awaits_hello k) = is_free_then k
is_free (awaits_open id k) = is_free_then k
is_free settled = true

-- No process that is being started has a prompt waiting for it.
abbrev pub none_waits : List LiveChild → Bool
none_waits [] = true
none_waits (l ∷ ls) = is_free l.stage && none_waits ls

-- The run is halted, no turn is active, no prompt waits, and `ps` have been sent.
pub record IsHalted (ps : List Prompt) (c : Communicator) : Type 0 where
  pub halted : c.state.halted ≡ true
  pub idle : is_turn_active c ≡ false
  pub free : none_waits c.processes ≡ true
  pub sent : prompts_of c.trace ≡ ps

pub none_waits-map :
    (role : ChildRole) (epoch : ℕ) (f : LiveChild → LiveChild) (ls : List LiveChild)
    → ((l : LiveChild) → is_free l.stage ≡ true → is_free (f l).stage ≡ true)
    → none_waits ls ≡ true
    → none_waits (map (λ l. if is_child role epoch l then f l else l) ls) ≡ true
none_waits-map role epoch f [] h n = refl
none_waits-map role epoch f (l ∷ ls) h n = ground (arith, h l, none_waits-map role epoch f ls h)

pub stage_of-free :
    (role : ChildRole) (epoch : ℕ) (c : Communicator)
    → none_waits c.processes ≡ true
    → is_free (stage_of role epoch c) ≡ true
unfolding stage_of
stage_of-free role epoch c h = child_in c.processes h
  where
    child_in :
        (ls : List LiveChild)
        → none_waits ls ≡ true
        → is_free (stage_in (find_child role epoch ls)) ≡ true
    child_in [] n = refl
    child_in (l ∷ ls) n = ground (arith, child_in ls)

pub keep_if-free :
    (role : ChildRole) (epoch : ℕ) (ls : List LiveChild)
    → none_waits ls ≡ true
    → none_waits (keep_if (λ l. not (is_child role epoch l)) ls) ≡ true
keep_if-free role epoch [] n = refl
keep_if-free role epoch (l ∷ ls) n = ground (arith, keep_if-free role epoch ls)

pub counts_on :
    (role : ChildRole) (epoch : ℕ) (ls : List LiveChild)
    → none_waits ls ≡ true
    → none_waits
        (map (λ l. if is_child role epoch l then record l { next_id = l.next_id + 1 } else l) ls)
      ≡ true
counts_on role epoch ls n =
    none_waits-map role epoch (λ l. record l { next_id = l.next_id + 1 }) ls (λ l h. h) n

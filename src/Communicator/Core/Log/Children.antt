-- ===== src/Communicator/Core/Log/Children.antt =====
-- The session file while children start and exit.
use hera_v.Shared.{ℕ, String, Option, none, some, arith}
use hera_v.Process.Envelope.{ProcId}
use hera_v.Process.Lifecycle.{ChildRole, executor, supervisor}
use hera_v.Communicator.State.{Prompt}
use hera_v.Communicator.Store.{
  Communicator, LiveChild, Sent, EventKind, kills, Then, nothing, send_the_prompt, resume_the_turn,
  Stage, awaits_hello, awaits_open, settled, emit, find_child, change_child, send_to,
  append_numbered, copy_to_supervisor,
}
use hera_v.Communicator.Spawning.{
  exit_at, break_promise, note_exit, after_exit, spawn, fail_respawn, send_prompt, run_then,
  respawn, on_hello, on_ack, on_timeout, replace_child, on_exit,
}
use hera_v.Communicator.Core.Log.Views.{IsRecorded}

pub change_child-IsRecorded :
    (role : ChildRole) (epoch : ℕ) (f : LiveChild → LiveChild) {c : Communicator}
    → IsRecorded c
    → IsRecorded (change_child role epoch f c)
unfolding change_child
change_child-IsRecorded role epoch f r = ground arith

pub send_to-IsRecorded :
    (role : ChildRole) (epoch : ℕ) (what : Sent) {c : Communicator}
    → IsRecorded c
    → IsRecorded (send_to role epoch what c)
unfolding send_to change_child
send_to-IsRecorded role epoch what r = ground arith

pub append_numbered-IsRecorded :
    (proc : ProcId) (kind : EventKind) {c : Communicator}
    → IsRecorded c
    → IsRecorded (append_numbered proc kind c)
unfolding append_numbered
append_numbered-IsRecorded proc kind r = ground arith

pub copy_to_supervisor-IsRecorded :
    (id : ℕ) {c : Communicator} → IsRecorded c → IsRecorded (copy_to_supervisor id c)
unfolding copy_to_supervisor
copy_to_supervisor-IsRecorded id r = ground arith

pub spawn-IsRecorded :
    (role : ChildRole) (k : Then) {c : Communicator} → IsRecorded c → IsRecorded (spawn role k c)
unfolding spawn
spawn-IsRecorded executor k r = ground arith
spawn-IsRecorded supervisor k r = ground arith

pub fail_respawn-IsRecorded :
    (role : ChildRole) {c : Communicator} → IsRecorded c → IsRecorded (fail_respawn role c)
unfolding fail_respawn
fail_respawn-IsRecorded executor r = ground arith
fail_respawn-IsRecorded supervisor r = ground arith

pub send_prompt-IsRecorded :
    (p : Prompt) {c : Communicator} → IsRecorded c → IsRecorded (send_prompt p c)
unfolding send_prompt
send_prompt-IsRecorded p r = ground arith

pub run_then-IsRecorded : (k : Then) {c : Communicator} → IsRecorded c → IsRecorded (run_then k c)
unfolding run_then
run_then-IsRecorded nothing r = r
run_then-IsRecorded (send_the_prompt p) r = send_prompt-IsRecorded p r
run_then-IsRecorded (resume_the_turn p) r = ground arith

pub respawn-IsRecorded :
    (role : ChildRole) (k : Then) {c : Communicator} → IsRecorded c → IsRecorded (respawn role k c)
unfolding respawn
respawn-IsRecorded role k {c} r = ground (arith, spawn-IsRecorded role k r)

pub on_hello-IsRecorded :
    (role : ChildRole) (epoch : ℕ) {c : Communicator}
    → IsRecorded c
    → IsRecorded (on_hello role epoch c)
unfolding on_hello
on_hello-IsRecorded executor epoch r = ground arith
on_hello-IsRecorded supervisor epoch r = ground arith

pub on_ack-IsRecorded :
    (role : ChildRole) (epoch id : ℕ) {c : Communicator}
    → IsRecorded c
    → IsRecorded (on_ack role epoch id c)
unfolding on_ack
on_ack-IsRecorded role epoch id r = grind (arith, run_then-IsRecorded, change_child-IsRecorded)

pub on_timeout-IsRecorded :
    (role : ChildRole) (epoch : ℕ) {c : Communicator}
    → IsRecorded c
    → IsRecorded (on_timeout role epoch c)
unfolding on_timeout
on_timeout-IsRecorded role epoch r = grind (arith, fail_respawn-IsRecorded, change_child-IsRecorded)

pub replace_child-IsRecorded :
    (role : ChildRole) (now : ℕ) {c : Communicator}
    → IsRecorded c
    → IsRecorded (replace_child role now c)
unfolding replace_child
replace_child-IsRecorded executor now r = ground arith
replace_child-IsRecorded supervisor now r = ground arith

pub break_promise-IsRecorded :
    (stage : Stage) (role : ChildRole) (epoch : ℕ) {c : Communicator}
    → IsRecorded c
    → IsRecorded (break_promise stage role epoch c)
break_promise-IsRecorded (awaits_hello k) role epoch {c} r =
    fail_respawn-IsRecorded role {c = emit (kills role epoch) c} (ground arith)
break_promise-IsRecorded (awaits_open id k) role epoch r = fail_respawn-IsRecorded role r
break_promise-IsRecorded settled role epoch r = r

pub note_exit-IsRecorded :
    (role : ChildRole) (epoch : ℕ) (code : Option ℕ) (signal : Option String) {c : Communicator}
    → IsRecorded c
    → IsRecorded (note_exit role epoch code signal c)
unfolding note_exit
note_exit-IsRecorded executor epoch code signal r = ground arith
note_exit-IsRecorded supervisor epoch code signal r = ground arith

pub after_exit-IsRecorded :
    (role : ChildRole) (now : ℕ) {c : Communicator}
    → IsRecorded c
    → IsRecorded (after_exit role now c)
unfolding after_exit
after_exit-IsRecorded role now {c} r = ground (arith, replace_child-IsRecorded role now r)

pub on_exit-IsRecorded :
    (role : ChildRole) (epoch now : ℕ) (code : Option ℕ) (signal : Option String) {c : Communicator}
    → IsRecorded c
    → IsRecorded (on_exit role epoch now code signal c)
unfolding on_exit
on_exit-IsRecorded role epoch now code signal {c} r =
    elim (find_child role epoch c.processes)
      as (λ l. IsRecorded (exit_at l role epoch now code signal c)) [
        | none ↦ r
        | some l ↦
            break_promise-IsRecorded l.stage role epoch
              (after_exit-IsRecorded role now (note_exit-IsRecorded role epoch code signal r))
      ]

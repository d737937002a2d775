-- ===== src/Communicator/Core/Halted/Children.antt =====
-- A halted run and its children: what is sent to them, how they start and exit.
use hera_v.Shared.{
  ℕ, ◌==◌, if◌then◌else◌, String, ◌≡◌, refl, true, false, Option, none, some, List, [], arith,
}
use hera_v.Process.Envelope.{ProcId}
use hera_v.Process.Lifecycle.{ChildRole, executor, supervisor, decide_on_exit}
use hera_v.Communicator.State.{ready, Prompt, ChildRecord}
use hera_v.Communicator.Store.{
  Communicator, LiveChild, Sent, session_open, prompt, EventKind, kills, Then, nothing,
  send_the_prompt, resume_the_turn, Stage, awaits_hello, awaits_open, settled, emit, find_child,
  change_child, send_to, append_numbered,
}
use hera_v.Communicator.Spawning.{
  exit_at, timeout_at, ack_at, hello_at, break_promise, note_exit, after_exit, fail_respawn,
  run_then, respawn, replace_child, on_exit, change_record,
}
use hera_v.Communicator.Core.{submit_prompt}
use hera_v.Communicator.Core.Halted.Waiting.{
  prompts_of_sent, is_free_then, is_free, IsHalted, none_waits-map, keep_if-free, counts_on,
}

module _ {ps : List Prompt} where
  pub send_to-IsHalted :
      (role : ChildRole) (epoch : ℕ) (what : Sent) {c : Communicator}
      → prompts_of_sent what [] ≡ []
      → IsHalted ps c
      → IsHalted ps (send_to role epoch what c)
  unfolding send_to
  send_to-IsHalted role epoch (prompt p) h r = cc
  send_to-IsHalted role epoch _ {c} h r = ground (arith, counts_on role epoch c.processes)

  pub append_numbered-IsHalted :
      (proc : ProcId) (kind : EventKind) {c : Communicator}
      → IsHalted ps c
      → IsHalted ps (append_numbered proc kind c)
  unfolding append_numbered
  append_numbered-IsHalted proc kind r = ground arith

  pub fail_respawn-IsHalted :
      (role : ChildRole) {c : Communicator} → IsHalted ps c → IsHalted ps (fail_respawn role c)
  unfolding fail_respawn
  fail_respawn-IsHalted executor r = ground arith
  fail_respawn-IsHalted supervisor r = ground arith

  pub respawn-IsHalted :
      (role : ChildRole) {c : Communicator} → IsHalted ps c → IsHalted ps (respawn role nothing c)
  unfolding respawn
  respawn-IsHalted executor r = ground arith
  respawn-IsHalted supervisor r = ground arith

  pub replace_child-IsHalted :
      (role : ChildRole) (now : ℕ) {c : Communicator}
      → IsHalted ps c
      → IsHalted ps (replace_child role now c)
  unfolding replace_child decide_on_exit
  replace_child-IsHalted executor now r = ground arith
  replace_child-IsHalted supervisor now r = ground arith

  pub note_exit-IsHalted :
      (role : ChildRole) (epoch : ℕ) (code : Option ℕ) (signal : Option String) {c : Communicator}
      → IsHalted ps c
      → IsHalted ps (note_exit role epoch code signal c)
  unfolding note_exit
  note_exit-IsHalted executor epoch code signal {c} r =
      ground (arith, keep_if-free executor epoch c.processes)
  note_exit-IsHalted supervisor epoch code signal {c} r =
      ground (arith, keep_if-free supervisor epoch c.processes)

  pub after_exit-IsHalted :
      (role : ChildRole) (now : ℕ) {c : Communicator}
      → IsHalted ps c
      → IsHalted ps (after_exit role now c)
  unfolding after_exit
  after_exit-IsHalted role now r = ground (arith, replace_child-IsHalted role now r)

  pub break_promise-IsHalted :
      (stage : Stage) (role : ChildRole) (epoch : ℕ) {c : Communicator}
      → IsHalted ps c
      → IsHalted ps (break_promise stage role epoch c)
  break_promise-IsHalted (awaits_hello k) role epoch {c} r =
      fail_respawn-IsHalted role {c = emit (kills role epoch) c} (ground arith)
  break_promise-IsHalted (awaits_open id k) role epoch r = fail_respawn-IsHalted role r
  break_promise-IsHalted settled role epoch r = r

  pub on_exit-IsHalted :
      (role : ChildRole) (epoch now : ℕ) (code : Option ℕ) (signal : Option String)
      {c : Communicator}
      → IsHalted ps c
      → IsHalted ps (on_exit role epoch now code signal c)
  unfolding on_exit
  on_exit-IsHalted role epoch now code signal {c} r =
      elim (find_child role epoch c.processes)
        as (λ l. IsHalted ps (exit_at l role epoch now code signal c)) [
          | none ↦ r
          | some l ↦
              break_promise-IsHalted l.stage role epoch
                (after_exit-IsHalted role now (note_exit-IsHalted role epoch code signal r))
        ]

  pub submit_prompt-IsHalted :
      (now : ℕ) (p : Prompt) {c : Communicator}
      → IsHalted ps c
      → IsHalted ps (submit_prompt now p c)
  unfolding submit_prompt
  submit_prompt-IsHalted now p r = ground arith

  pub change_child-IsHalted :
      (role : ChildRole) (epoch : ℕ) (f : LiveChild → LiveChild) {c : Communicator}
      → ((l : LiveChild) → is_free l.stage ≡ true → is_free (f l).stage ≡ true)
      → IsHalted ps c
      → IsHalted ps (change_child role epoch f c)
  unfolding change_child
  change_child-IsHalted role epoch f {c} h r =
      let n = none_waits-map role epoch f c.processes h r.free in ground arith

  pub settle-IsHalted :
      (role : ChildRole) (epoch : ℕ) {c : Communicator}
      → IsHalted ps c
      → IsHalted ps (change_child role epoch (λ l. record l { stage = settled }) c)
  settle-IsHalted role epoch r =
      change_child-IsHalted role epoch (λ l. record l { stage = settled }) (λ l h. refl) r

  pub change_record-IsHalted :
      (role : ChildRole) (epoch : ℕ) (f : ChildRecord → ChildRecord) {c : Communicator}
      → IsHalted ps c
      → IsHalted ps (change_record role epoch f c)
  unfolding change_record
  change_record-IsHalted executor epoch f r = ground arith
  change_record-IsHalted supervisor epoch f r = ground arith

  pub killed-IsHalted :
      (role : ChildRole) (epoch : ℕ) {c : Communicator}
      → IsHalted ps c
      → IsHalted ps (emit (kills role epoch) c)
  killed-IsHalted role epoch r = ground arith

  pub timeout_at-IsHalted :
      (stage : Stage) (role : ChildRole) (epoch : ℕ) {c : Communicator}
      → IsHalted ps c
      → IsHalted ps (timeout_at stage role epoch c)
  timeout_at-IsHalted (awaits_hello k) role epoch r =
      fail_respawn-IsHalted role (killed-IsHalted role epoch (settle-IsHalted role epoch r))
  timeout_at-IsHalted (awaits_open id k) role epoch r =
      fail_respawn-IsHalted role (settle-IsHalted role epoch r)
  timeout_at-IsHalted settled role epoch r = r

  pub run_then-IsHalted :
      (k : Then) {c : Communicator}
      → is_free_then k ≡ true
      → IsHalted ps c
      → IsHalted ps (run_then k c)
  unfolding run_then
  run_then-IsHalted nothing h r = r
  run_then-IsHalted (send_the_prompt p) h r = cc
  run_then-IsHalted (resume_the_turn p) h r = cc

  pub ack_at-IsHalted :
      (stage : Stage) (role : ChildRole) (epoch id : ℕ) {c : Communicator}
      → is_free stage ≡ true
      → IsHalted ps c
      → IsHalted ps (ack_at stage role epoch id c)
  ack_at-IsHalted (awaits_hello k) role epoch id h r = r
  ack_at-IsHalted (awaits_open opened k) role epoch id {c} h r =
      elim (opened == id)
        as (λ b. IsHalted ps (
          if b
          then run_then k (change_child role epoch (λ l. record l { stage = settled }) c)
          else c)) [ true ↦ run_then-IsHalted k h (settle-IsHalted role epoch r) | false ↦ r ]
  ack_at-IsHalted settled role epoch id h r = r

  pub hello_at-IsHalted :
      (stage : Stage) (role : ChildRole) (epoch : ℕ) {c : Communicator}
      → is_free stage ≡ true
      → IsHalted ps c
      → IsHalted ps (hello_at stage role epoch c)
  hello_at-IsHalted (awaits_hello k) role epoch h r =
      send_to-IsHalted role epoch session_open refl (
        change_child-IsHalted role epoch
          (λ l. record l { is_ready = true; stage = awaits_open l.next_id k }) (λ l e. h)
          (change_record-IsHalted role epoch (λ r. record r { state = ready }) r))
  hello_at-IsHalted (awaits_open opened k) role epoch h r = r
  hello_at-IsHalted settled role epoch h r = r

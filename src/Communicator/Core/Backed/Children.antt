-- ===== src/Communicator/Core/Backed/Children.antt =====
-- The current Executor is a process: what is sent to the children, how they start and exit.
use hera_v.Shared.{
  ℕ, ◌+◌, ◌==◌, if◌then◌else◌, String, ◌≡◌, refl, ◌∙◌, Bool, true, false, not, ◌&&◌, Option, none,
  some, List, [], ◌∷◌, arith, map, keep_if, is_some, Option-cases, inl, inr,
}
use hera_v.Process.Envelope.{ProcId, comm}
use hera_v.Process.Lifecycle.{ChildRole, executor, supervisor, decide_on_exit}
use hera_v.Communicator.State.{ready, exited, Prompt, ChildRecord, mark_resumed}
use hera_v.Communicator.Store.{
  Communicator, LiveChild, Sent, session_open, EventKind, kills, Then, nothing, send_the_prompt,
  resume_the_turn, Stage, awaits_hello, awaits_open, settled, emit, find_child, is_child, same_role,
  change_child, send_to, append_numbered, with_state, failure, restart_performed,
}
use hera_v.Communicator.Spawning.{
  exit_at, timeout_at, ack_at, hello_at, break_promise, note_exit, after_exit, fail_respawn,
  run_then, send_prompt, respawn, replace_child, on_exit, change_record, remove_child, resume_note,
}
use hera_v.Communicator.Core.{submit_prompt}

abbrev pub is_process : Option ℕ → List LiveChild → Bool
is_process none ls = true
is_process (some epoch) ls = is_some (find_child executor epoch ls)

-- Where there is a current Executor, it is among the processes.
pub record IsBacked (c : Communicator) : Type 0 where
  pub backed : is_process c.live_executor c.processes ≡ true

is_process-map :
    (role : ChildRole) (epoch : ℕ) (f : LiveChild → LiveChild) (o : Option ℕ) (ls : List LiveChild)
    → ((l : LiveChild) → ((f l).role ≡ l.role) × ((f l).epoch ≡ l.epoch))
    → is_process o (map (λ l. if is_child role epoch l then f l else l) ls) ≡ is_process o ls
unfolding find_child
is_process-map role epoch f none ls h = refl
is_process-map role epoch f (some e) [] h = refl
is_process-map role epoch f (some e) (l ∷ ls) h =
    let (r, n) = h l in ground (arith, is_process-map role epoch f (some e) ls h)

pub counted_on :
    (role : ChildRole) (epoch : ℕ) (o : Option ℕ) (ls : List LiveChild)
    → is_process o
        (map (λ l. if is_child role epoch l then record l { next_id = l.next_id + 1 } else l) ls)
      ≡ is_process o ls
counted_on role epoch o ls =
    is_process-map role epoch (λ l. record l { next_id = l.next_id + 1 }) o ls (λ l. (refl, refl))

is_process-keep_if :
    (role : ChildRole) (epoch e : ℕ) (ls : List LiveChild)
    → (same_role executor role && e == epoch) ≡ false
    → is_process (some e) (keep_if (λ l. not (is_child role epoch l)) ls) ≡ is_process (some e) ls
unfolding find_child
is_process-keep_if role epoch e [] h = refl
is_process-keep_if executor epoch e (l ∷ ls) h =
    ground (arith, is_process-keep_if executor epoch e ls h)
is_process-keep_if supervisor epoch e (l ∷ ls) h =
    ground (arith, is_process-keep_if supervisor epoch e ls h)

pub send_to-IsBacked :
    (role : ChildRole) (epoch : ℕ) (what : Sent) {c : Communicator}
    → IsBacked c
    → IsBacked (send_to role epoch what c)
unfolding send_to
send_to-IsBacked role epoch what {c} r =
    ground (arith, counted_on role epoch c.live_executor c.processes)

append_numbered-IsBacked :
    (proc : ProcId) (kind : EventKind) {c : Communicator}
    → IsBacked c
    → IsBacked (append_numbered proc kind c)
unfolding append_numbered
append_numbered-IsBacked proc kind r = ground arith

fail_respawn-IsBacked :
    (role : ChildRole) {c : Communicator} → IsBacked c → IsBacked (fail_respawn role c)
unfolding fail_respawn
fail_respawn-IsBacked executor r = ground arith
fail_respawn-IsBacked supervisor r = ground arith

respawn-IsBacked :
    (role : ChildRole) (k : Then) {c : Communicator} → IsBacked c → IsBacked (respawn role k c)
unfolding respawn find_child
respawn-IsBacked executor k r = ground arith
respawn-IsBacked supervisor k r = ground arith

remove_child-IsBacked :
    (role : ChildRole) (epoch : ℕ) {c : Communicator}
    → IsBacked c
    → IsBacked (remove_child role epoch c)
unfolding remove_child
remove_child-IsBacked role epoch {c} r = elim (Option-cases c.live_executor) [
  | inl n ↦ at_none role n
  | inr (e, h) ↦ at_some role e h
]
  where
    at_none : (role : ChildRole) → c.live_executor ≡ none → IsBacked (remove_child role epoch c)
    at_none executor n = ground arith
    at_none supervisor n = ground arith

    at_some :
        (role : ChildRole) (e : ℕ) → c.live_executor ≡ some e → IsBacked (remove_child role epoch c)
    at_some executor e h = ground (arith, is_process-keep_if executor epoch e c.processes)
    at_some supervisor e h = ground (arith, is_process-keep_if supervisor epoch e c.processes)

change_record-IsBacked :
    (role : ChildRole) (epoch : ℕ) (f : ChildRecord → ChildRecord) {c : Communicator}
    → IsBacked c
    → IsBacked (change_record role epoch f c)
unfolding change_record
change_record-IsBacked executor epoch f r = ground arith
change_record-IsBacked supervisor epoch f r = ground arith

note_exit-IsBacked :
    (role : ChildRole) (epoch : ℕ) (code : Option ℕ) (signal : Option String) {c : Communicator}
    → IsBacked c
    → IsBacked (note_exit role epoch code signal c)
unfolding note_exit
note_exit-IsBacked role epoch code signal r = remove_child-IsBacked role epoch (
    change_record-IsBacked role epoch
      (λ r. record r { state = exited; exit_code = code; signal = signal }) r)

replace_child-IsBacked :
    (role : ChildRole) (now : ℕ) {c : Communicator}
    → IsBacked c
    → IsBacked (replace_child role now c)
unfolding replace_child decide_on_exit find_child
replace_child-IsBacked executor now r = ground arith
replace_child-IsBacked supervisor now r = ground arith

after_exit-IsBacked :
    (role : ChildRole) (now : ℕ) {c : Communicator} → IsBacked c → IsBacked (after_exit role now c)
unfolding after_exit
after_exit-IsBacked role now r = ground (arith, replace_child-IsBacked role now r)

break_promise-IsBacked :
    (stage : Stage) (role : ChildRole) (epoch : ℕ) {c : Communicator}
    → IsBacked c
    → IsBacked (break_promise stage role epoch c)
break_promise-IsBacked (awaits_hello k) role epoch {c} r =
    fail_respawn-IsBacked role {c = emit (kills role epoch) c} (ground arith)
break_promise-IsBacked (awaits_open id k) role epoch r = fail_respawn-IsBacked role r
break_promise-IsBacked settled role epoch r = r

pub on_exit-IsBacked :
    (role : ChildRole) (epoch now : ℕ) (code : Option ℕ) (signal : Option String) {c : Communicator}
    → IsBacked c
    → IsBacked (on_exit role epoch now code signal c)
unfolding on_exit
on_exit-IsBacked role epoch now code signal {c} r =
    elim (find_child role epoch c.processes)
      as (λ l. IsBacked (exit_at l role epoch now code signal c)) [
        | none ↦ r
        | some l ↦
            break_promise-IsBacked l.stage role epoch
              (after_exit-IsBacked role now (note_exit-IsBacked role epoch code signal r))
      ]

send_prompt-IsBacked : (p : Prompt) {c : Communicator} → IsBacked c → IsBacked (send_prompt p c)
unfolding send_prompt
send_prompt-IsBacked p {c} r = elim (Option-cases c.live_executor) [
  | inl n ↦ ground arith
  | inr (e, h) ↦ elim (Option-cases (find_child executor e c.processes)) [
    | inl n ↦ ground arith
    | inr (l, k) ↦ ground (arith, counted_on executor l.epoch c.live_executor c.processes)
  ]
]

pub submit_prompt-IsBacked :
    (now : ℕ) (p : Prompt) {c : Communicator} → IsBacked c → IsBacked (submit_prompt now p c)
unfolding submit_prompt find_child
submit_prompt-IsBacked now p {c} r = elim (Option-cases c.live_executor) [
  | inl n ↦ ground arith
  | inr (e, h) ↦ elim (Option-cases (find_child executor e c.processes)) [
    | inl n ↦ ground arith
    | inr (l, k) ↦ ground (arith, counted_on executor l.epoch c.live_executor c.processes)
  ]
]

change_child-IsBacked :
    (role : ChildRole) (epoch : ℕ) (f : LiveChild → LiveChild) {c : Communicator}
    → ((l : LiveChild) → ((f l).role ≡ l.role) × ((f l).epoch ≡ l.epoch))
    → IsBacked c
    → IsBacked (change_child role epoch f c)
unfolding change_child
change_child-IsBacked role epoch f {c} h r = record {
  backed = is_process-map role epoch f c.live_executor c.processes h ∙ r.backed;
}

settle-IsBacked :
    (role : ChildRole) (epoch : ℕ) {c : Communicator}
    → IsBacked c
    → IsBacked (change_child role epoch (λ l. record l { stage = settled }) c)
settle-IsBacked role epoch r =
    change_child-IsBacked role epoch (λ l. record l { stage = settled }) (λ l. (refl, refl)) r

killed-IsBacked :
    (role : ChildRole) (epoch : ℕ) {c : Communicator}
    → IsBacked c
    → IsBacked (emit (kills role epoch) c)
killed-IsBacked role epoch r = ground arith

pub timeout_at-IsBacked :
    (stage : Stage) (role : ChildRole) (epoch : ℕ) {c : Communicator}
    → IsBacked c
    → IsBacked (timeout_at stage role epoch c)
timeout_at-IsBacked (awaits_hello k) role epoch r =
    fail_respawn-IsBacked role (killed-IsBacked role epoch (settle-IsBacked role epoch r))
timeout_at-IsBacked (awaits_open id k) role epoch r =
    fail_respawn-IsBacked role (settle-IsBacked role epoch r)
timeout_at-IsBacked settled role epoch r = r

run_then-IsBacked : (k : Then) {c : Communicator} → IsBacked c → IsBacked (run_then k c)
unfolding run_then
run_then-IsBacked nothing r = r
run_then-IsBacked (send_the_prompt p) r = send_prompt-IsBacked p r
run_then-IsBacked (resume_the_turn p) {c} r =
    let resumed : Communicator = with_state mark_resumed c in
    send_prompt-IsBacked (record { text = p.text; note = some resume_note })
      (append_numbered-IsBacked comm
        (failure (restart_performed resumed.state.executor_record.epoch)) {c = resumed}
        (ground arith))

pub ack_at-IsBacked :
    (stage : Stage) (role : ChildRole) (epoch id : ℕ) {c : Communicator}
    → IsBacked c
    → IsBacked (ack_at stage role epoch id c)
ack_at-IsBacked (awaits_hello k) role epoch id r = r
ack_at-IsBacked (awaits_open opened k) role epoch id {c} r =
    elim (opened == id)
      as (λ b. IsBacked (
        if b
        then run_then k (change_child role epoch (λ l. record l { stage = settled }) c)
        else c)) [ true ↦ run_then-IsBacked k (settle-IsBacked role epoch r) | false ↦ r ]
ack_at-IsBacked settled role epoch id r = r

pub hello_at-IsBacked :
    (stage : Stage) (role : ChildRole) (epoch : ℕ) {c : Communicator}
    → IsBacked c
    → IsBacked (hello_at stage role epoch c)
hello_at-IsBacked (awaits_hello k) role epoch r = send_to-IsBacked role epoch session_open (
    change_child-IsBacked role epoch
      (λ l. record l { is_ready = true; stage = awaits_open l.next_id k }) (λ l. (refl, refl))
      (change_record-IsBacked role epoch (λ r. record r { state = ready }) r))
hello_at-IsBacked (awaits_open opened k) role epoch r = r
hello_at-IsBacked settled role epoch r = r

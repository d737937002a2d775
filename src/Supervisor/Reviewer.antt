-- ===== src/Supervisor/Reviewer.antt =====
-- src/supervisor/review.ts: Reviewer. One review is in flight; what comes meanwhile waits for the next.
-- `on_run_end` is what drain does when the review that it awaits has ended or failed.
mod Examples
pub mod Serving
use hera_v.Shared.{Bool, true, false, not, ◌&&◌, ◌||◌, List, [], ◌∷◌, ◌++◌, if◌then◌else◌, any}

pub data TriggerReason : Type 0 where
  every_n_calls error_streak repeated_edit cost_spike : TriggerReason

abbrev pub same_reason : TriggerReason → TriggerReason → Bool
same_reason every_n_calls every_n_calls = true
same_reason error_streak error_streak = true
same_reason repeated_edit repeated_edit = true
same_reason cost_spike cost_spike = true
same_reason _ _ = false

-- `reviews` are the reasons of the reviews begun, the newest first.
pub record Reviewer : Type 0 where
  pub in_flight : Bool
  pub pending : List TriggerReason
  pub stopped : Bool
  pub reviews : List (List TriggerReason)

unfoldable pub new_reviewer : Reviewer
new_reviewer = record { in_flight = false; pending = []; stopped = false; reviews = [] }

abbrev pub has_reason : TriggerReason → List TriggerReason → Bool
has_reason reason reasons = any (same_reason reason) reasons

-- A `Set` keeps what it has.
abbrev pub add_reason : TriggerReason → List TriggerReason → List TriggerReason
add_reason reason reasons = if has_reason reason reasons then reasons else reasons ++ reason ∷ []

abbrev pub review_next : List TriggerReason → Reviewer → Reviewer
review_next [] r = record r { in_flight = false }
review_next (reason ∷ reasons) r =
    if r.stopped
    then record r { in_flight = false }
    else record r { in_flight = true; pending = []; reviews = (reason ∷ reasons) ∷ r.reviews }

-- The condition of the loop and its body up to the await.
unfoldable pub drain : Reviewer → Reviewer
drain r = review_next r.pending r

unfoldable pub schedule : TriggerReason → Reviewer → Reviewer
unfolding drain
schedule reason r =
    if r.stopped
    then r
    else let added : Reviewer = record r { pending = add_reason reason r.pending } in
      if r.in_flight then added else drain added

unfoldable pub on_run_end : Reviewer → Reviewer
unfolding drain
on_run_end r = if r.in_flight then drain r else r

unfoldable pub stop : Reviewer → Reviewer
stop r = record r { stopped = true; pending = [] }

pub data Input : Type 0 where
  schedules : TriggerReason → Input
  ends stops : Input

abbrev pub step : Input → Reviewer → Reviewer
step (schedules reason) r = schedule reason r
step ends r = on_run_end r
step stops r = stop r

unfoldable pub run : List Input → Reviewer → Reviewer
unfolding schedule on_run_end stop
run [] r = r
run (input ∷ inputs) r = run inputs (step input r)

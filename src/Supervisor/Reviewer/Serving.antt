-- ===== src/Supervisor/Reviewer/Serving.antt =====
-- That the reviews of src/supervisor/review.ts take up every reason.
use hera_v.Shared.{
  ◌≡◌, refl, Bool, true, false, not, ◌||◌, List, [], ◌∷◌, ◌++◌, any, arith, Bool-cases, inl, inr,
}
use hera_v.Supervisor.Reviewer.{
  TriggerReason, same_reason, Reviewer, has_reason, add_reason, review_next, schedule, on_run_end,
  stop, Input, schedules, ends, stops, run,
}

has_reason-append :
    (reason : TriggerReason) (xs ys : List TriggerReason)
    → has_reason reason (xs ++ ys) ≡ (has_reason reason xs || has_reason reason ys)
has_reason-append reason [] ys = refl
has_reason-append reason (x ∷ xs) ys = ground (arith, has_reason-append reason xs ys)

same_reason_refl : (reason : TriggerReason) → same_reason reason reason ≡ true
same_reason_refl TriggerReason.every_n_calls = refl
same_reason_refl TriggerReason.error_streak = refl
same_reason_refl TriggerReason.repeated_edit = refl
same_reason_refl TriggerReason.cost_spike = refl

add_reason-has :
    (asked reason : TriggerReason) (xs : List TriggerReason)
    → has_reason asked xs ≡ true
    → has_reason asked (add_reason reason xs) ≡ true
add_reason-has asked reason xs h = ground (arith, has_reason-append asked xs (reason ∷ []))

add_reason_self :
    (reason : TriggerReason) (xs : List TriggerReason)
    → has_reason reason (add_reason reason xs) ≡ true
add_reason_self reason xs =
    ground (arith, has_reason-append reason xs (reason ∷ []), same_reason_refl reason)

abbrev is_end : Input → Bool
is_end ends = true
is_end _ = false

abbrev is_stop : Input → Bool
is_stop stops = true
is_stop _ = false

-- A review ends among the inputs.
abbrev pub some_end : List Input → Bool
some_end inputs = any is_end inputs

abbrev pub no_stop : List Input → Bool
no_stop inputs = not (any is_stop inputs)

-- Some review that was begun has the reason.
abbrev pub is_reviewed : TriggerReason → List (List TriggerReason) → Bool
is_reviewed reason reviews = any (has_reason reason) reviews

-- A reason that is owed a review.
record IsOwed (reason : TriggerReason) (r : Reviewer) : Type 0 where
  running : r.stopped ≡ false
  busy : r.in_flight ≡ true
  waiting : has_reason reason r.pending ≡ true

review_next-reviewed :
    (reason : TriggerReason) (r : Reviewer) (reasons : List TriggerReason)
    → r.stopped ≡ false
    → has_reason reason reasons ≡ true
    → is_reviewed reason (review_next reasons r).reviews ≡ true
review_next-reviewed reason r [] s h = cc
review_next-reviewed reason r (x ∷ xs) s h = rw s (ground arith)

review_next-keeps :
    (reason : TriggerReason) (r : Reviewer) (reasons : List TriggerReason)
    → is_reviewed reason r.reviews ≡ true
    → is_reviewed reason (review_next reasons r).reviews ≡ true
review_next-keeps reason r [] h = h
review_next-keeps reason r (x ∷ xs) h = ground arith

-- A review that was begun stays begun.
run-keeps :
    (reason : TriggerReason) (inputs : List Input) (r : Reviewer)
    → is_reviewed reason r.reviews ≡ true
    → is_reviewed reason (run inputs r).reviews ≡ true
unfolding run
run-keeps reason [] r h = h
run-keeps reason (schedules x ∷ inputs) r h = run-keeps reason inputs (schedule x r) (
    ground (
      arith,
      review_next-keeps reason (record r { pending = add_reason x r.pending })
          (add_reason x r.pending) h,
    ))
run-keeps reason (ends ∷ inputs) r h =
    run-keeps reason inputs (on_run_end r) (ground (arith, review_next-keeps reason r r.pending h))
run-keeps reason (stops ∷ inputs) r h = run-keeps reason inputs (stop r) h

on_run_end-reviewed :
    (reason : TriggerReason) (r : Reviewer)
    → IsOwed reason r
    → is_reviewed reason (on_run_end r).reviews ≡ true
unfolding on_run_end
on_run_end-reviewed reason r o =
    simp o.busy (review_next-reviewed reason r r.pending o.running o.waiting)

schedule-IsOwed :
    (reason x : TriggerReason) (r : Reviewer) → IsOwed reason r → IsOwed reason (schedule x r)
unfolding schedule
schedule-IsOwed reason x r o = record {
  running = ground (arith, o.running, o.busy);
  busy = ground (arith, o.running, o.busy);
  waiting = ground (arith, o.running, o.busy, o.waiting, add_reason-has reason x r.pending);
}

run-serves :
    (reason : TriggerReason) (inputs : List Input) (r : Reviewer)
    → IsOwed reason r
    → no_stop inputs ≡ true
    → some_end inputs ≡ true
    → is_reviewed reason (run inputs r).reviews ≡ true
unfolding run
run-serves reason [] r o n e = cc
run-serves reason (schedules x ∷ inputs) r o n e =
    run-serves reason inputs (schedule x r) (schedule-IsOwed reason x r o) (ground arith)
      (ground arith)
run-serves reason (ends ∷ inputs) r o n e =
    run-keeps reason inputs (on_run_end r) (on_run_end-reviewed reason r o)
run-serves reason (stops ∷ inputs) r o n e = cc

scheduled-IsOwed :
    (reason : TriggerReason) (r : Reviewer)
    → r.stopped ≡ false
    → r.in_flight ≡ true
    → IsOwed reason (schedule reason r)
unfolding schedule
scheduled-IsOwed reason r s b = record {
  running = ground arith;
  busy = ground arith;
  waiting = ground (arith, add_reason_self reason r.pending);
}

scheduled-reviewed :
    (reason : TriggerReason) (r : Reviewer)
    → r.stopped ≡ false
    → r.in_flight ≡ false
    → is_reviewed reason (schedule reason r).reviews ≡ true
unfolding schedule
scheduled-reviewed reason r s b = ground (
  arith,
  review_next-reviewed reason (record r { pending = add_reason reason r.pending })
      (add_reason reason r.pending),
  add_reason_self reason r.pending,
)

-- The reviews are counted from here.
abbrev pub anew : Reviewer → Reviewer
anew r = record r { reviews = [] }

-- Over any inputs a reason that is scheduled at a reviewer that is not stopped is in a review begun from
-- then on: at once where none is in flight, and else when one has ended, whatever is scheduled
-- meanwhile, where nothing stops the reviewer.
pub schedule-reviewed :
    (reason : TriggerReason) (inputs : List Input) (r : Reviewer)
    → r.stopped ≡ false
    → no_stop inputs ≡ true
    → (not r.in_flight || some_end inputs) ≡ true
    → is_reviewed reason (run (schedules reason ∷ inputs) (anew r)).reviews ≡ true
unfolding run
schedule-reviewed reason inputs r s n e = elim (Bool-cases r.in_flight) [
  | inl b ↦
      run-serves reason inputs (schedule reason (anew r)) (scheduled-IsOwed reason (anew r) s b) n
        (ground arith)
  | inr b ↦
      run-keeps reason inputs (schedule reason (anew r)) (scheduled-reviewed reason (anew r) s b)
]

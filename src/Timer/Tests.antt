-- ===== src/Timer/Tests.antt =====
-- Runs of src/timer.c, and its theorems at concrete inputs.
use i3sd.Common.{ℕ, ◌+◌, ◌≡◌, refl, Bool, true, false, none, some, arith}
use i3sd.Timer.{
  Timer, TimerHeap, timer_before, timer_swap, sift_up, sift_down, timer_sift_up, timer_sift_down,
  earlier, make_room, push, add, refill, cancel, peek, pop_due, periods, reschedule_fixed,
}
use i3sd.Timer.Invariant.{Valid}
use i3sd.Timer.Adding.{AddOutcome, add-AddOutcome}
use i3sd.Timer.Cancelling.{Cancelled, cancel-Cancelled}
use i3sd.Timer.Queue.{Popped, pop_due-Popped}
use i3sd.Timer.Rescheduling.{Rescheduled, reschedule_fixed-Rescheduled}
use i3sd.Timer.Lifetime.{here, then_step, adds, cancels, pops, Reach-Valid}
use i3sd.Timer.Ending.{timer_sift_ends}

abbrev gives : ℕ → Bool
gives size = true

abbrev blank : Timer
blank = record {
  deadline_ns = 0;
  interval_ns = 0;
  sequence = 0;
  heap_index = 0;
  userdata = 0;
  active = false;
}

abbrev start : TimerHeap
start = record { timers = λ _. blank; items = λ _. 0; len = 0; cap = 0; next_sequence = 0 }

abbrev one : TimerHeap
one = (add gives start 1 30 0 0).1

abbrev two : TimerHeap
two = (add gives one 2 10 5 0).1

abbrev three : TimerHeap
three = (add gives two 3 10 7 0).1

next_numbers : ((one.next_sequence ≡ 1) × (two.next_sequence ≡ 2))
unfolding add make_room push timer_sift_up sift_up timer_before timer_swap
next_numbers = (refl, refl)

-- Equal deadlines leave in the order in which they were added.
pops_first : (pop_due three 12).0 ≡ some 2
unfolding add make_room push timer_sift_up sift_up timer_before timer_swap pop_due peek
pops_first = refl

pops_second : (pop_due (pop_due three 12).1 12).0 ≡ some 3
unfolding add make_room push timer_sift_up sift_up timer_before timer_swap pop_due peek cancel
    refill timer_sift_down sift_down earlier
pops_second = refl

not_due : (pop_due three 9).0 ≡ none
unfolding add make_room push timer_sift_up sift_up timer_before timer_swap pop_due peek
not_due = refl

two-Valid : Valid two
two-Valid =
    Reach-Valid refl (omega arith) (λ t. refl)
      (then_step (then_step here (adds gives 1 30 0 0 (omega arith)))
        (adds gives 2 10 5 0 (omega (arith, next_numbers.0))))

Reach-Valid_example : Valid (cancel one 1)
Reach-Valid_example =
    Reach-Valid {h = start} refl (omega arith) (λ t. refl)
      (then_step (then_step here (adds gives 1 30 0 0 (omega arith))) (cancels 1))

pop_due-Popped_example : Popped two 12 (pop_due two 12)
pop_due-Popped_example = pop_due-Popped two two-Valid 12

active_two : (two.timers 1).active ≡ true
unfolding add make_room push timer_sift_up sift_up timer_before timer_swap
active_two = refl

cancel-Cancelled_example : Cancelled two 1 (cancel two 1)
cancel-Cancelled_example = cancel-Cancelled two 1 two-Valid active_two

add-AddOutcome_example : AddOutcome gives two 3 10 7 0 (add gives two 3 10 7 0)
add-AddOutcome_example = add-AddOutcome gives two 3 10 7 0 two-Valid (omega (arith, next_numbers.1))

-- The timer 2, popped, with its deadline 10 and interval 5.
abbrev popped : TimerHeap
popped = (pop_due two 12).1

popped_fields : (popped.next_sequence ≡ 2) × ((popped.timers 2).deadline_ns ≡ 10)
unfolding add make_room push timer_sift_up sift_up timer_before timer_swap pop_due peek cancel
    refill timer_sift_down sift_down earlier
popped_fields = (refl, refl)

popped-Valid : Valid popped
popped-Valid =
    Reach-Valid refl (omega arith) (λ t. refl)
      (then_step
        (then_step (then_step here (adds gives 1 30 0 0 (omega arith)))
          (adds gives 2 10 5 0 (omega (arith, next_numbers.0))))
        (pops 12))

reschedule_fixed-Rescheduled_example :
    Rescheduled gives popped 2 12 (reschedule_fixed gives popped 2 12)
reschedule_fixed-Rescheduled_example =
    reschedule_fixed-Rescheduled gives popped 2 12 popped-Valid (omega (arith, popped_fields.0))
      (omega arith) (omega (arith, popped_fields.1))

-- The deadline after 12 is 15.
next_deadline : ((reschedule_fixed gives popped 2 12).1.timers 2).deadline_ns ≡ 15
unfolding add make_room push timer_sift_up sift_up timer_before timer_swap pop_due peek cancel
    refill timer_sift_down sift_down earlier periods reschedule_fixed
next_deadline = refl

timer_sift_ends_example :
    (sift_up (5 + 1) two 1 ≡ timer_sift_up two 1)
    × (sift_down (5 + two.len) two 1 ≡ timer_sift_down two 1)
timer_sift_ends_example = timer_sift_ends 5 two 1

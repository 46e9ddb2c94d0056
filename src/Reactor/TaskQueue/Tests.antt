-- ===== src/Reactor/TaskQueue/Tests.antt =====
-- Schedules of the queue of src/reactor/task_queue.cc.
use serach_engine.Base.{◌≡◌, refl, true, false, List, [], ◌∷◌, some}
use serach_engine.Reactor.TaskQueue.Order.{IsOrdered, run-IsOrdered}
use serach_engine.Reactor.TaskQueue.Wakeups.{IsAwake, run-IsAwake}
use serach_engine.Reactor.TaskQueue.{
  TaskQueue, Holder, Event, init, empty, full, notify_not_empty, notify_not_full, push_body,
  take_front, pop_body, step, run,
}

-- A consumer sleeps, and a producer wakes it.
abbrev handover : List Event
handover =
    Event.pop_enter
    ∷ Event.pop_wait
    ∷ Event.push_enter 7
    ∷ Event.push_enter 8
    ∷ Event.pop_resume
    ∷ []

abbrev after : TaskQueue
after = record (init 2 true) { que = 8 ∷ []; pushed = 7 ∷ 8 ∷ []; popped = 7 ∷ [] }

handover-run : run handover (init 2 true) ≡ some after
unfolding run step init empty full notify_not_empty notify_not_full push_body take_front pop_body
handover-run = refl

run-IsOrdered_example : IsOrdered after
run-IsOrdered_example = run-IsOrdered 2 true handover {s = after} handover-run

run-IsAwake_example : IsAwake after
run-IsAwake_example = run-IsAwake 2 true handover {s = after} handover-run

-- A consumer has seen the empty queue.
abbrev checked : TaskQueue
checked = record (init 1 true) { holder = Holder.pop_checked }

-- Both halves of `Wakeup` come before it waits, and it sleeps with the flag down.
asleep-run :
    run (Event.wakeup_flag ∷ Event.wakeup_notify ∷ Event.pop_wait ∷ []) checked
    ≡ some (record (init 1 false) { pop_waiting = 1 })
unfolding run step init
asleep-run = refl

-- The flag that the constructor leaves unset happens to be false.
abbrev pushes : List Event
pushes = Event.push_enter 7 ∷ Event.pop_enter ∷ []

abbrev stuck : TaskQueue
stuck = record (init 1 false) { que = 7 ∷ []; pushed = 7 ∷ [] }

stuck-run : run pushes (init 1 false) ≡ some stuck
unfolding run step init empty full notify_not_empty notify_not_full push_body take_front pop_body
stuck-run = refl

-- ===== src/Reactor/TaskQueue.antt =====
-- `TaskQueue` of src/reactor/task_queue.cc as the threads see it: each step is what one thread does
-- between taking the mutex and giving it up. A thread that has found the queue full or empty holds
-- the mutex until `pthread_cond_wait` gives it up; `Wakeup` takes no mutex, so it runs in between.
-- `Pop` has the mutex from its test of the flag to the task that it takes. A half of `Wakeup` that
-- falls between the two does what it does right behind the task, since the one reads neither the
-- flag nor the waiting consumers and the other neither the tasks nor the waiting producers; so such
-- a run is the schedule with `wakeup_flag` behind the step of `Pop`, and comes to the same state.
-- A signal wakes one waiting thread, and a wait may end with no signal, as POSIX allows.
pub mod Order
pub mod Races
pub mod Wakeups
mod Tests
use serach_engine.Base.{
  ℕ, zero, suc, ◌+◌, ◌-◌, Bool, true, false, ◌&&◌, List, [], ◌∷◌, ◌++◌, Option, none, some, length,
  if◌then◌else◌, ◌==◌, nat_eq, ltb, nat_beq,
}

-- Who has the mutex between two steps.
pub data Holder : Type 0 where
  free push_checked pop_checked : Holder

pub record TaskQueue : Type 0 where
  pub que : List ℕ
  pub queue_size : ℕ
  pub flag : Bool
  pub holder : Holder
  -- Threads in `_not_full.Wait()` and in `_not_empty.Wait()`, asleep and woken.
  pub push_waiting : ℕ
  pub push_woken : ℕ
  pub pop_waiting : ℕ
  pub pop_woken : ℕ
  -- Whether `Wakeup` still has its `NotifyAll` to do.
  pub notifying : Bool
  -- The tasks that `Push` has put in and that `Pop` has given out, in order.
  pub pushed : List ℕ
  pub popped : List ℕ

-- `TaskQueue::TaskQueue`: it leaves `_flag` unset, so `flag` is what the memory held.
unfoldable pub init : ℕ → Bool → TaskQueue
init queue_size flag = record {
  que = [];
  queue_size = queue_size;
  flag = flag;
  holder = free;
  push_waiting = 0;
  push_woken = 0;
  pop_waiting = 0;
  pop_woken = 0;
  notifying = false;
  pushed = [];
  popped = [];
}

-- `TaskQueue::Empty` and `TaskQueue::Full`.
unfoldable pub empty : TaskQueue → Bool
empty s = nat_beq (length s.que) 0

unfoldable pub full : TaskQueue → Bool
full s = nat_beq (length s.que) s.queue_size

-- `_not_empty.Notify()` and `_not_full.Notify()`.
unfoldable pub notify_not_empty : TaskQueue → TaskQueue
notify_not_empty s =
    if ltb 0 s.pop_waiting
    then record s { pop_waiting = s.pop_waiting - 1; pop_woken = s.pop_woken + 1 }
    else s

unfoldable pub notify_not_full : TaskQueue → TaskQueue
notify_not_full s =
    if ltb 0 s.push_waiting
    then record s { push_waiting = s.push_waiting - 1; push_woken = s.push_woken + 1 }
    else s

-- `Push` from its test on: it waits on a full queue.
unfoldable pub push_body : ℕ → TaskQueue → TaskQueue
unfolding full notify_not_empty
push_body task s =
    if full s
    then record s { holder = push_checked }
    else notify_not_empty (record s { que = s.que ++ task ∷ []; pushed = s.pushed ++ task ∷ [] })

-- `_que.front()` and `_que.pop()`.
unfoldable pub take_front : List ℕ → TaskQueue → TaskQueue
unfolding notify_not_full
take_front [] s = s
take_front (task ∷ rest) s =
    notify_not_full (record s { que = rest; popped = s.popped ++ task ∷ [] })

-- `Pop` from its test on: if the flag is down at the test it returns a null task and leaves the queue
-- alone.
unfoldable pub pop_body : TaskQueue → TaskQueue
unfolding empty take_front
pop_body s =
    if s.flag && empty s
    then record s { holder = pop_checked }
    else if s.flag
    then take_front s.que s
    else s

pub data Event : Type 0 where
  -- A thread calls `Push`, or goes on after its wait.
  push_enter push_resume : ℕ → Event
  -- A thread that found the queue full begins to wait.
  push_wait : Event
  pop_enter pop_resume pop_wait : Event
  -- The two statements of `Wakeup`.
  wakeup_flag wakeup_notify : Event
  -- A wait ends with no signal.
  push_spurious pop_spurious : Event

is_free : Holder → Bool
is_free free = true
is_free push_checked = false
is_free pop_checked = false

is_push_checked : Holder → Bool
is_push_checked free = false
is_push_checked push_checked = true
is_push_checked pop_checked = false

is_pop_checked : Holder → Bool
is_pop_checked free = false
is_pop_checked push_checked = false
is_pop_checked pop_checked = true

abbrev when : Bool → TaskQueue → Option TaskQueue
when true s = some s
when false s = none

-- One step; `none` where no thread can make it.
unfoldable pub step : Event → TaskQueue → Option TaskQueue
unfolding is_free is_push_checked is_pop_checked push_body pop_body
step (push_enter task) s = when (is_free s.holder) (push_body task s)
step (push_resume task) s =
    when (is_free s.holder && ltb 0 s.push_woken)
      (push_body task (record s { push_woken = s.push_woken - 1 }))
step push_wait s =
    when (is_push_checked s.holder) (record s { holder = free; push_waiting = s.push_waiting + 1 })
step pop_enter s = when (is_free s.holder) (pop_body s)
step pop_resume s =
    when (is_free s.holder && ltb 0 s.pop_woken)
      (pop_body (record s { pop_woken = s.pop_woken - 1 }))
step pop_wait s =
    when (is_pop_checked s.holder) (record s { holder = free; pop_waiting = s.pop_waiting + 1 })
step wakeup_flag s = some (record s { flag = false; notifying = true })
step wakeup_notify s =
    when s.notifying
      (record s { pop_waiting = 0; pop_woken = s.pop_woken + s.pop_waiting; notifying = false })
step push_spurious s =
    when (ltb 0 s.push_waiting)
      (record s { push_waiting = s.push_waiting - 1; push_woken = s.push_woken + 1 })
step pop_spurious s =
    when (ltb 0 s.pop_waiting)
      (record s { pop_waiting = s.pop_waiting - 1; pop_woken = s.pop_woken + 1 })

-- A schedule: one step after the other.
unfoldable pub run : List Event → TaskQueue → Option TaskQueue
run [] s = some s
run (e ∷ es) s = elim (step e s) [ none ↦ none | some t ↦ run es t ]

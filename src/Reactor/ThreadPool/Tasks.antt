-- ===== src/Reactor/ThreadPool/Tasks.antt =====
-- Where the tasks of src/reactor/thread_pool.cc are: in the queue, with one thread, or done.
use mathlib.Core.Path.{subst}
use serach_engine.Base.{
  ℕ, ◌+◌, ◌≡◌, refl, ap, Bool, List, [], ◌∷◌, some, length, nat_eq, arith, Option-cases, inl, inr,
}
use serach_engine.Reactor.TaskQueue.{
  TaskQueue, empty, full, push_enter, push_resume, push_wait, pop_enter, pop_resume, pop_wait,
  wakeup_flag, wakeup_notify, push_spurious, pop_spurious, push_body, pop_body, take_front,
  notify_not_empty, notify_not_full,
}
use serach_engine.Reactor.TaskQueue as TaskQueue
use serach_engine.Reactor.ThreadPool.{ThreadPool, Event, init, step, run}
use serach_engine.Reactor.ThreadPool.Counts.{count, count-append}
use serach_engine.Reactor.ThreadPool.Steps.{step-IsServed}
use serach_engine.Reactor.ThreadPool.Served.{IsServed}

init-IsServed :
    (thread_num queue_size : ℕ) (flag : Bool) → IsServed (init thread_num queue_size flag)
unfolding init TaskQueue.init count
init-IsServed thread_num queue_size flag = record {
  ordered = record { bounded = omega arith; fifo = refl };
  out = λ k. refl;
  staffed = refl;
  unstarted = λ h. refl;
}

run-keeps :
    (es : List Event) (s : ThreadPool) {t : ThreadPool}
    → run es s ≡ some t
    → IsServed s
    → IsServed t
unfolding run
run-keeps [] s {t} h v = let same : s ≡ t = cc in subst IsServed same v
run-keeps (e ∷ es) s h v = elim (Option-cases (step e s)) [
  | inl stuck ↦ absurd (ground (arith, stuck))
  | inr (u, done) ↦ run-keeps es u (rw (done, run) at h) (step-IsServed e s done v)
]

-- Under every schedule of the pool, each task was put into the queue as often as it is with a
-- thread, has returned or waits in the queue, all in all; and the threads at the test, at the call
-- of Pop, in Pop, in a task and at their end are together those that were made.
pub run-served :
    (thread_num queue_size : ℕ) (flag : Bool) (es : List Event) {s : ThreadPool}
    → run es (init thread_num queue_size flag) ≡ some s
    → ((k : ℕ)
        → count k s.task_queue.pushed
          ≡ (count k s.calling + count k s.called) + count k s.task_queue.que)
      × (s.testing + (s.entering + (s.blocked + (length s.calling + s.exited))) ≡ s.created)
run-served thread_num queue_size flag es {s} h =
    let v =
      run-keeps es (init thread_num queue_size flag) h (init-IsServed thread_num queue_size flag) in
    (
      λ k. omega (
        arith,
        ap (count k) v.ordered.fifo,
        count-append k s.task_queue.popped s.task_queue.que,
        v.out k,
      ),
      v.staffed,
    )

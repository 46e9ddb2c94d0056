-- ===== src/Reactor/ThreadPool/Tests.antt =====
-- Runs of the model of the thread pool of src/reactor/thread_pool.cc.
use serach_engine.Base.{ℕ, ◌+◌, ◌≡◌, refl, true, false, List, [], ◌∷◌, some}
use serach_engine.Base.Sets.{contains}
use serach_engine.Reactor.TaskQueue.{
  TaskQueue, empty, full, push_enter, pop_enter, push_body, pop_body, take_front, notify_not_empty,
  notify_not_full,
}
use serach_engine.Reactor.TaskQueue as TaskQueue
use serach_engine.Reactor.Thread as Thread
use serach_engine.Reactor.ThreadPool.{
  ThreadPool, Event, init, start_threads, num_running, front, given, begin_call, get_task, drop_one,
  with_queue, leave_or_enter, step, run, start_all, add_task, stop_flag, test, enter, finish,
}
use serach_engine.Reactor.ThreadPool.Tasks.{run-served}
use serach_engine.Reactor.ThreadPool.Counts.{count}

-- One of two threads is made; it calls the first of two tasks.
abbrev one_done : List Event
one_done = start_all (0 ∷ 11 ∷ []) ∷ add_task 7 ∷ add_task 8 ∷ test ∷ enter ∷ finish 7 ∷ []

abbrev after : ThreadPool
after = record {
  task_queue = record {
    que = 8 ∷ [];
    queue_size = 4;
    flag = true;
    holder = TaskQueue.free;
    push_waiting = 0;
    push_woken = 0;
    pop_waiting = 0;
    pop_woken = 0;
    notifying = false;
    pushed = 7 ∷ 8 ∷ [];
    popped = 7 ∷ [];
  };
  thread_num = 2;
  threads = record { is_running = true } ∷ record { is_running = false } ∷ [];
  created = 1;
  is_exit = false;
  testing = 1;
  entering = 0;
  blocked = 0;
  exited = 0;
  calling = [];
  called = 7 ∷ [];
  stopping = false;
}

one_done-run : run one_done (init 2 4 true) ≡ some after
unfolding run step init TaskQueue.init TaskQueue.step start_threads num_running with_queue get_task
    leave_or_enter begin_call given front drop_one contains Thread.start
one_done-run = refl

run-served_example :
    ((k : ℕ) → count k (7 ∷ 8 ∷ []) ≡ (count k [] + count k (7 ∷ [])) + count k (8 ∷ []))
    × (1 + (0 + (0 + (0 + 0))) ≡ 1)
run-served_example = run-served 2 4 true one_done one_done-run

-- `Stop` takes the flag down; a task that comes now stays in the queue.
abbrev stopping : ThreadPool
stopping = record after { is_exit = true; stopping = true }

abbrev late : List Event
late = add_task 9 ∷ test ∷ []

abbrev stopped : ThreadPool
stopped = record stopping {
  task_queue = record stopping.task_queue {
    que = 8 ∷ 9 ∷ [];
    flag = false;
    notifying = true;
    pushed = 7 ∷ 8 ∷ 9 ∷ [];
  };
  testing = 0;
  exited = 1;
}

late-run : run (stop_flag ∷ late) stopping ≡ some stopped
unfolding run step TaskQueue.step with_queue leave_or_enter
late-run = refl

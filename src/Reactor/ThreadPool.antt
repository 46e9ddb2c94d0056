-- ===== src/Reactor/ThreadPool.antt =====
-- `ThreadPool` of src/reactor/thread_pool.cc over the model of its queue: each step is one thread's.
-- A task is a number; what it does when it is called is not looked at.
pub mod Counts
pub mod Served
pub mod Guards
pub mod Steps
pub mod Tasks
mod Tests
use serach_engine.Base.{
  ℕ, zero, suc, ◌+◌, ◌-◌, Bool, true, false, ◌&&◌, not, List, [], ◌∷◌, ◌++◌, Option, none, some,
  length, if◌then◌else◌, ◌==◌, nat_eq, ltb, nat_beq, map,
}
use serach_engine.Base.Sets.{contains}
use serach_engine.Reactor.Thread.{Thread, start, join}
use serach_engine.Reactor.Thread as Thread
use serach_engine.Reactor.TaskQueue.{
  TaskQueue, empty, push_enter, push_resume, push_wait, pop_enter, pop_resume, pop_wait,
  wakeup_flag, wakeup_notify, push_spurious, pop_spurious,
}
use serach_engine.Reactor.TaskQueue as TaskQueue

pub record ThreadPool : Type 0 where
  pub task_queue : TaskQueue
  pub thread_num : ℕ
  pub threads : List Thread
  -- How many threads `pthread_create` has made.
  pub created : ℕ
  pub is_exit : Bool
  -- The threads at the test of `_isExit`, at the call of `Pop`, in `Pop`, and at their end.
  pub testing : ℕ
  pub entering : ℕ
  pub blocked : ℕ
  pub exited : ℕ
  -- The tasks that threads are calling, and those that returned.
  pub calling : List ℕ
  pub called : List ℕ
  -- Whether `Stop` has found the queue empty.
  pub stopping : Bool

-- The constructor; `flag` is what the memory of `_flag` held.
unfoldable pub init : ℕ → ℕ → Bool → ThreadPool
init thread_num queue_size flag = record {
  task_queue = TaskQueue.init queue_size flag;
  thread_num = thread_num;
  threads = [];
  created = 0;
  is_exit = false;
  testing = 0;
  entering = 0;
  blocked = 0;
  exited = 0;
  calling = [];
  called = [];
  stopping = false;
}

-- `th->Start()` for each thread, where `pthread_create` gave these.
unfoldable pub start_threads : List ℕ → List Thread
unfolding start
start_threads [] = []
start_threads (ret ∷ rets) = (start ret Thread.init).1 ∷ start_threads rets

unfoldable pub num_running : List Thread → ℕ
num_running [] = 0
num_running (th ∷ ths) = let rest = num_running ths in if th.is_running then suc rest else rest

-- `th->Join()` for each thread.
unfoldable pub join_threads : List Thread → List Thread
unfolding join
join_threads [] = []
join_threads (th ∷ ths) = (join 0 th).1 ∷ join_threads ths

-- What `Pop` gives if it does not wait: the front, or a null task once the flag is down.
unfoldable pub front : List ℕ → Option ℕ
front [] = none
front (task ∷ rest) = some task

unfoldable pub given : TaskQueue → Option ℕ
unfolding front
given q = if q.flag then front q.que else none

-- `if (taskcb) taskcb()`, up to the call.
unfoldable pub begin_call : Option ℕ → ThreadPool → ThreadPool
begin_call none s = record s { testing = suc s.testing }
begin_call (some task) s = record s { calling = task ∷ s.calling }

-- `GetTask`, from the test of `Pop` to its wait or its end; `q` is the queue at that test.
unfoldable pub get_task : TaskQueue → ThreadPool → ThreadPool
unfolding given begin_call empty
get_task q s =
    if q.flag && empty q then record s { blocked = suc s.blocked } else begin_call (given q) s

unfoldable pub drop_one : ℕ → List ℕ → List ℕ
drop_one task [] = []
drop_one task (x ∷ xs) = if x == task then xs else x ∷ drop_one task xs

pub data Event : Type 0 where
  start_all : List ℕ → Event
  -- `AddTask` and its waits in `Push`; a null task is not put in.
  add_task resume_add : ℕ → Event
  add_null wait_add spurious_add : Event
  -- `ThreadFunc`: the test, `Pop` and its waits, and the end of a task.
  test enter resume wait spurious : Event
  finish : ℕ → Event
  -- `Stop`: the test of the queue, `_isExit = true`, the two statements of `Wakeup`, and `Join`.
  stop_test stop_exit stop_flag stop_notify stop_join : Event

-- A step of the queue, and what it does to the pool.
unfoldable pub with_queue :
    TaskQueue.Event → (TaskQueue → ThreadPool) → TaskQueue → Option ThreadPool
with_queue e f q = elim (TaskQueue.step e q) [ none ↦ none | some r ↦ some (f r) ]

abbrev pub when : Bool → ThreadPool → Option ThreadPool
when true s = some s
when false s = none

-- `if (_isExit)` of the loop.
unfoldable pub leave_or_enter : ThreadPool → ThreadPool
leave_or_enter s =
    if s.is_exit
    then record s { testing = s.testing - 1; exited = suc s.exited }
    else record s { testing = s.testing - 1; entering = suc s.entering }

-- One step; `none` where no thread can make it.
unfoldable pub step : Event → ThreadPool → Option ThreadPool
unfolding start_threads num_running join_threads get_task drop_one with_queue leave_or_enter
step (start_all rets) s =
    when (nat_beq (length rets) s.thread_num && nat_beq (length s.threads) 0) (record s {
      threads = start_threads rets;
      created = num_running (start_threads rets);
      testing = num_running (start_threads rets);
    })
step (add_task task) s =
    with_queue (push_enter task) (λ q. record s { task_queue = q }) s.task_queue
step (resume_add task) s =
    with_queue (push_resume task) (λ q. record s { task_queue = q }) s.task_queue
step add_null s = some s
step wait_add s = with_queue push_wait (λ q. record s { task_queue = q }) s.task_queue
step spurious_add s = with_queue push_spurious (λ q. record s { task_queue = q }) s.task_queue
step test s = when (ltb 0 s.testing) (leave_or_enter s)
step enter s =
    if ltb 0 s.entering
    then with_queue pop_enter
        (λ q. get_task s.task_queue (record s { task_queue = q; entering = s.entering - 1 }))
        s.task_queue
    else none
step resume s =
    if ltb 0 s.blocked
    then with_queue pop_resume
        (λ q. get_task s.task_queue (record s { task_queue = q; blocked = s.blocked - 1 }))
        s.task_queue
    else none
step wait s = with_queue pop_wait (λ q. record s { task_queue = q }) s.task_queue
step spurious s = with_queue pop_spurious (λ q. record s { task_queue = q }) s.task_queue
step (finish task) s = when (contains task s.calling) (record s {
  calling = drop_one task s.calling;
  called = s.called ++ task ∷ [];
  testing = suc s.testing;
})
step stop_test s = when (empty s.task_queue) (record s { stopping = true })
step stop_exit s = when s.stopping (record s { is_exit = true })
step stop_flag s =
    if s.is_exit
    then with_queue wakeup_flag (λ q. record s { task_queue = q }) s.task_queue
    else none
step stop_notify s = with_queue wakeup_notify (λ q. record s { task_queue = q }) s.task_queue
step stop_join s =
    when (s.is_exit && nat_beq s.exited s.created) (record s { threads = join_threads s.threads })

unfoldable pub run : List Event → ThreadPool → Option ThreadPool
run [] s = some s
run (e ∷ es) s = elim (step e s) [ none ↦ none | some t ↦ run es t ]

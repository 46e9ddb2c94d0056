-- ===== src/Reactor/ThreadPool/Steps.antt =====
-- The steps of src/reactor/thread_pool.cc, one after the other.
use mathlib.Core.Path.{subst}
use serach_engine.Base.{
  suc, ◌-◌, ◌≡◌, refl, sym, ◌∙◌, true, ◌&&◌, [], ◌∷◌, ◌++◌, some, length, nat_eq, nat_beq, ltb,
  arith,
}
use serach_engine.Base.Sets.{contains}
use serach_engine.Reactor.TaskQueue.{
  empty, push_enter, push_resume, push_wait, pop_enter, pop_resume, pop_wait, wakeup_flag,
  wakeup_notify, push_spurious, pop_spurious,
}
use serach_engine.Reactor.ThreadPool.{
  ThreadPool, Event, start_threads, num_running, join_threads, get_task, drop_one, with_queue,
  leave_or_enter, step, start_all, add_task, resume_add, add_null, wait_add, spurious_add, test,
  enter, resume, wait, spurious, finish, stop_test, stop_exit, stop_flag, stop_notify, stop_join,
}
use serach_engine.Reactor.ThreadPool.Served.{IsServed, quiet-IsServed, pop-IsServed}
use serach_engine.Reactor.ThreadPool.Guards.{
  step-popped, enter-popped, resume-popped, when-eq-some, guard-eq-some, leave_or_enter-IsServed,
  finish-IsServed, start_all-IsServed, and_true, length-join_threads,
}

pub step-IsServed :
    (e : Event) (s : ThreadPool) {t : ThreadPool} → step e s ≡ some t → IsServed s → IsServed t
unfolding step
step-IsServed (start_all rets) s h v =
    let (fresh, same) =
      when-eq-some (nat_beq (length rets) s.thread_num && nat_beq (length s.threads) 0)
        (record s {
          threads = start_threads rets;
          created = num_running (start_threads rets);
          testing = num_running (start_threads rets);
        })
        h in
    subst IsServed (sym same) (
      start_all-IsServed rets s
        (and_true (nat_beq (length rets) s.thread_num) (nat_beq (length s.threads) 0) fresh) v)
step-IsServed (add_task task) s h v =
    quiet-IsServed (push_enter task) s (λ r. step-popped (push_enter task) s.task_queue refl) h v
step-IsServed (resume_add task) s h v =
    quiet-IsServed (push_resume task) s (λ r. step-popped (push_resume task) s.task_queue refl) h v
step-IsServed add_null s h v = ground (arith, h, v)
step-IsServed wait_add s h v =
    quiet-IsServed push_wait s (λ r. step-popped push_wait s.task_queue refl) h v
step-IsServed spurious_add s h v =
    quiet-IsServed push_spurious s (λ r. step-popped push_spurious s.task_queue refl) h v
step-IsServed test s h v =
    let (some_test, same) = when-eq-some (ltb 0 s.testing) (leave_or_enter s) h in
    subst IsServed (sym same) (leave_or_enter-IsServed s some_test v)
step-IsServed enter s h v =
    let u : ThreadPool = record s { entering = s.entering - 1 } in
    let (some_one, done) =
      guard-eq-some (ltb 0 s.entering)
        (with_queue pop_enter (λ q. get_task s.task_queue (record u { task_queue = q }))
          s.task_queue)
        h in
    pop-IsServed pop_enter s u (λ r. enter-popped s.task_queue) done v refl refl
      (ground (arith, some_one, v.staffed)) v.unstarted
step-IsServed resume s h v =
    let u : ThreadPool = record s { blocked = s.blocked - 1 } in
    let (some_one, done) =
      guard-eq-some (ltb 0 s.blocked)
        (with_queue pop_resume (λ q. get_task s.task_queue (record u { task_queue = q }))
          s.task_queue)
        h in
    pop-IsServed pop_resume s u (λ r. resume-popped s.task_queue) done v refl refl
      (ground (arith, some_one, v.staffed)) v.unstarted
step-IsServed wait s h v =
    quiet-IsServed pop_wait s (λ r. step-popped pop_wait s.task_queue refl) h v
step-IsServed spurious s h v =
    quiet-IsServed pop_spurious s (λ r. step-popped pop_spurious s.task_queue refl) h v
step-IsServed (finish task) s h v =
    let (held, same) =
      when-eq-some (contains task s.calling)
        (record s {
          calling = drop_one task s.calling;
          called = s.called ++ task ∷ [];
          testing = suc s.testing;
        })
        h in
    subst IsServed (sym same) (finish-IsServed task s held v)
step-IsServed stop_test s h v =
    let (found, same) = when-eq-some (empty s.task_queue) (record s { stopping = true }) h in
    subst IsServed (sym same)
      (record { ordered = v.ordered; out = v.out; staffed = v.staffed; unstarted = v.unstarted })
step-IsServed stop_exit s h v =
    let (found, same) = when-eq-some s.stopping (record s { is_exit = true }) h in
    subst IsServed (sym same)
      (record { ordered = v.ordered; out = v.out; staffed = v.staffed; unstarted = v.unstarted })
step-IsServed stop_flag s h v =
    let (leaving, done) =
      guard-eq-some s.is_exit
        (with_queue wakeup_flag (λ r. record s { task_queue = r }) s.task_queue) h in
    quiet-IsServed wakeup_flag s (λ r. step-popped wakeup_flag s.task_queue refl) done v
step-IsServed stop_notify s h v =
    quiet-IsServed wakeup_notify s (λ r. step-popped wakeup_notify s.task_queue refl) h v
step-IsServed stop_join s h v =
    let (over, same) =
      when-eq-some (s.is_exit && nat_beq s.exited s.created)
        (record s { threads = join_threads s.threads }) h in
    subst IsServed (sym same) (record {
      ordered = v.ordered;
      out = v.out;
      staffed = v.staffed;
      unstarted = λ none_left. v.unstarted (sym (length-join_threads s.threads) ∙ none_left);
    })

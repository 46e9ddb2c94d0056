-- ===== src/Reactor/ThreadPool/Served.antt =====
-- Where the tasks of src/reactor/thread_pool.cc are: in the queue, with one thread, or done.
use mathlib.Core.List.{append-nil}
use mathlib.Core.Path.{subst}
use serach_engine.Base.{
  ℕ, suc, ◌+◌, ◌≡◌, sym, ap, ◌∙◌, List, [], ◌∷◌, ◌++◌, Option, none, some, length, if◌then◌else◌,
  nat_eq, arith, Option-cases, Bool-cases, inl, inr,
}
use serach_engine.Reactor.TaskQueue.{
  TaskQueue, empty, full, push_enter, push_resume, push_wait, pop_enter, pop_resume, pop_wait,
  wakeup_flag, wakeup_notify, push_spurious, pop_spurious, push_body, pop_body, take_front,
  notify_not_empty, notify_not_full,
}
use serach_engine.Reactor.TaskQueue as TaskQueue
use serach_engine.Reactor.TaskQueue.Order.{IsOrdered, step-IsOrdered}
use serach_engine.Reactor.ThreadPool.{ThreadPool, given, begin_call, get_task, with_queue}
use serach_engine.Reactor.ThreadPool.Counts.{count, count-append, to_list, waits}

-- The tasks given out are with a thread or done, and no thread is lost.
pub record IsServed (s : ThreadPool) : Type 0 where
  pub ordered : IsOrdered s.task_queue
  pub out : (k : ℕ) → count k s.task_queue.popped ≡ count k s.calling + count k s.called
  pub staffed : s.testing + (s.entering + (s.blocked + (length s.calling + s.exited))) ≡ s.created
  pub unstarted : length s.threads ≡ 0 → s.created ≡ 0

pub with_queue-eq-some :
    (e : TaskQueue.Event) (f : TaskQueue → ThreadPool) (q : TaskQueue) {t : ThreadPool}
    → with_queue e f q ≡ some t
    → (r : TaskQueue) × (TaskQueue.step e q ≡ some r) × (t ≡ f r)
unfolding with_queue
with_queue-eq-some e f q h = elim (Option-cases (TaskQueue.step e q)) [
  | inl stuck ↦ absurd (ground (arith, stuck))
  | inr (r, done) ↦ (r, done, ground (arith, done))
]

pub quiet-IsServed :
    (e : TaskQueue.Event) (s : ThreadPool) {t : ThreadPool}
    → ((r : TaskQueue) → TaskQueue.step e s.task_queue ≡ some r → r.popped ≡ s.task_queue.popped)
    → with_queue e (λ r. record s { task_queue = r }) s.task_queue ≡ some t
    → IsServed s
    → IsServed t
quiet-IsServed e s quiet h v =
    let (r, done, same) = with_queue-eq-some e (λ r. record s { task_queue = r }) s.task_queue h in
    subst IsServed (sym same) (record {
      ordered = step-IsOrdered e s.task_queue done v.ordered;
      out = λ k. ap (count k) (quiet r done) ∙ v.out k;
      staffed = v.staffed;
      unstarted = v.unstarted;
    })

pub begin_call-IsServed :
    (g : Option ℕ) (before : List ℕ) (s : ThreadPool)
    → IsOrdered s.task_queue
    → s.task_queue.popped ≡ before ++ to_list g
    → ((k : ℕ) → count k before ≡ count k s.calling + count k s.called)
    → suc (s.testing + (s.entering + (s.blocked + (length s.calling + s.exited)))) ≡ s.created
    → (length s.threads ≡ 0 → s.created ≡ 0)
    → IsServed (begin_call g s)
unfolding begin_call
begin_call-IsServed none before s o e out staffed un = record {
  ordered = o;
  out = λ k. ap (count k) (e ∙ append-nil before) ∙ out k;
  staffed = omega (arith, staffed);
  unstarted = un;
}
begin_call-IsServed (some task) before s o e out staffed un = record {
  ordered = o;
  out = λ k. ap (count k) e ∙ count-append k before (task ∷ []) ∙ moved k;
  staffed = omega (arith, staffed);
  unstarted = un;
}
  where
    moved :
        (k : ℕ)
        → count k before + count k (task ∷ []) ≡ count k (task ∷ s.calling) + count k s.called
    moved k = ground (arith, out k, count-append k (task ∷ []) s.calling)

pub get_task-IsServed :
    (q : TaskQueue) (s : ThreadPool)
    → IsOrdered s.task_queue
    → s.task_queue.popped ≡ (if waits q then q.popped else q.popped ++ to_list (given q))
    → ((k : ℕ) → count k q.popped ≡ count k s.calling + count k s.called)
    → suc (s.testing + (s.entering + (s.blocked + (length s.calling + s.exited)))) ≡ s.created
    → (length s.threads ≡ 0 → s.created ≡ 0)
    → IsServed (get_task q s)
unfolding get_task
get_task-IsServed q s o e out staffed un = elim (Bool-cases (waits q)) [
  | inl waiting ↦
      rw (waiting, get_task)
        (record {
          ordered = o;
          out = λ k. ap (count k) (rw (waiting) at e) ∙ out k;
          staffed = omega (arith, staffed);
          unstarted = un;
        })
  | inr done ↦
      rw (done, get_task)
        (begin_call-IsServed (given q) q.popped s o (rw (done) at e) out staffed un)
]

-- The two ways into the body of `Pop`.
pub pop-IsServed :
    (e : TaskQueue.Event) (s u : ThreadPool) {t : ThreadPool}
    → ((r : TaskQueue)
        → TaskQueue.step e s.task_queue ≡ some r
        → r.popped ≡ (
            if waits s.task_queue
            then s.task_queue.popped
            else s.task_queue.popped ++ to_list (given s.task_queue)))
    → with_queue e (λ r. get_task s.task_queue (record u { task_queue = r })) s.task_queue ≡ some t
    → IsServed s
    → u.calling ≡ s.calling
    → u.called ≡ s.called
    → suc (u.testing + (u.entering + (u.blocked + (length u.calling + u.exited)))) ≡ u.created
    → (length u.threads ≡ 0 → u.created ≡ 0)
    → IsServed t
pop-IsServed e s u pops h v c1 c2 staffed un =
    let (r, done, same) =
      with_queue-eq-some e (λ r. get_task s.task_queue (record u { task_queue = r })) s.task_queue
        h in
    subst IsServed (sym same) (
      get_task-IsServed s.task_queue (record u { task_queue = r })
        (step-IsOrdered e s.task_queue done v.ordered) (pops r done) (λ k. rw (c1, c2) (v.out k))
        staffed un)

-- ===== src/Reactor/ThreadPool/Guards.antt =====
-- What a step of src/reactor/thread_pool.cc that was made says of the state before.
use serach_engine.Base.{
  ℕ, suc, ◌-◌, ◌≡◌, refl, ap, Bool, true, false, ◌&&◌, List, [], ◌∷◌, ◌++◌, Option, none, some,
  length, if◌then◌else◌, nat_eq, nat_beq, nat_beq_iff, ltb, arith,
}
use serach_engine.Base.Sets.{contains}
use serach_engine.Reactor.TaskQueue.{
  TaskQueue, empty, full, push_enter, push_resume, push_wait, pop_enter, pop_resume, pop_wait,
  wakeup_flag, wakeup_notify, push_spurious, pop_spurious, push_body, pop_body, take_front,
  notify_not_empty, notify_not_full,
}
use serach_engine.Reactor.TaskQueue as TaskQueue
use serach_engine.Reactor.Thread.{Thread}
use serach_engine.Reactor.ThreadPool.{
  ThreadPool, start_threads, num_running, join_threads, given, drop_one, when, leave_or_enter,
}
use serach_engine.Reactor.ThreadPool.Counts.{
  count-append, count-drop_one, length-drop_one, to_list, push_body-popped, waits, pop_body-popped,
}
use serach_engine.Reactor.ThreadPool.Served.{IsServed}

-- The steps of the queue that are not in the body of `Pop`.
abbrev pub is_pop : TaskQueue.Event → Bool
is_pop pop_enter = true
is_pop pop_resume = true
is_pop _ = false

pub step-popped :
    (e : TaskQueue.Event) (q : TaskQueue) {r : TaskQueue}
    → is_pop e ≡ false
    → TaskQueue.step e q ≡ some r
    → r.popped ≡ q.popped
unfolding TaskQueue.step
step-popped (push_enter task) q p h = ground (arith, h, push_body-popped task q)
step-popped (push_resume task) q p h =
    ground (arith, h, push_body-popped task (record q { push_woken = q.push_woken - 1 }))
step-popped pop_enter q p h = cc
step-popped pop_resume q p h = cc
step-popped _ q p h = ground (arith, h)

pub enter-popped :
    (q : TaskQueue) {r : TaskQueue}
    → TaskQueue.step pop_enter q ≡ some r
    → r.popped ≡ (if waits q then q.popped else q.popped ++ to_list (given q))
unfolding TaskQueue.step
enter-popped q h = ground (arith, h, pop_body-popped q)

pub resume-popped :
    (q : TaskQueue) {r : TaskQueue}
    → TaskQueue.step pop_resume q ≡ some r
    → r.popped ≡ (if waits q then q.popped else q.popped ++ to_list (given q))
unfolding TaskQueue.step given empty
resume-popped q h =
    let body : (pop_body (record q { pop_woken = q.pop_woken - 1 })).popped
        ≡ (if waits q then q.popped else q.popped ++ to_list (given q)) =
      pop_body-popped (record q { pop_woken = q.pop_woken - 1 }) in
    ground (arith, h, body)

pub when-eq-some :
    (b : Bool) (s : ThreadPool) {t : ThreadPool} → when b s ≡ some t → (b ≡ true) × (t ≡ s)
when-eq-some true s h = (refl, cc)
when-eq-some false s h = cc

pub guard-eq-some :
    (b : Bool) (o : Option ThreadPool) {t : ThreadPool}
    → (if b then o else none) ≡ some t
    → (b ≡ true) × (o ≡ some t)
guard-eq-some true o h = (refl, h)
guard-eq-some false o h = cc

pub leave_or_enter-IsServed :
    (s : ThreadPool) → ltb 0 s.testing ≡ true → IsServed s → IsServed (leave_or_enter s)
unfolding leave_or_enter
leave_or_enter-IsServed s some_test v = by_exit s.is_exit
  where
    by_exit :
        (b : Bool)
        → IsServed (
            if b
            then record s { testing = s.testing - 1; exited = suc s.exited }
            else record s { testing = s.testing - 1; entering = suc s.entering })
    by_exit true = record {
      ordered = v.ordered;
      out = v.out;
      staffed = ground (arith, some_test, v.staffed);
      unstarted = v.unstarted;
    }
    by_exit false = record {
      ordered = v.ordered;
      out = v.out;
      staffed = ground (arith, some_test, v.staffed);
      unstarted = v.unstarted;
    }

pub finish-IsServed :
    (task : ℕ) (s : ThreadPool)
    → contains task s.calling ≡ true
    → IsServed s
    → IsServed (record s {
      calling = drop_one task s.calling;
      called = s.called ++ task ∷ [];
      testing = suc s.testing;
    })
finish-IsServed task s held v = record {
  ordered = v.ordered;
  out = λ k.
      omega
        (arith, v.out k, count-append k s.called (task ∷ []), count-drop_one k task s.calling held);
  staffed = omega (arith, v.staffed, length-drop_one task s.calling held);
  unstarted = v.unstarted;
}

pub num_running-none :
    (rets : List ℕ) → length (start_threads rets) ≡ 0 → num_running (start_threads rets) ≡ 0
unfolding start_threads num_running
num_running-none [] h = refl
num_running-none (r ∷ rets) h = cc

pub start_all-IsServed :
    (rets : List ℕ) (s : ThreadPool)
    → nat_beq (length s.threads) 0 ≡ true
    → IsServed s
    → IsServed (record s {
      threads = start_threads rets;
      created = num_running (start_threads rets);
      testing = num_running (start_threads rets);
    })
start_all-IsServed rets s fresh v = record {
  ordered = v.ordered;
  out = v.out;
  staffed = omega (arith, v.staffed, v.unstarted ((nat_beq_iff (length s.threads) 0).0 fresh));
  unstarted = num_running-none rets;
}

pub and_true : (a b : Bool) → (a && b) ≡ true → b ≡ true
and_true true b h = h
and_true false b h = cc

pub length-join_threads : (ths : List Thread) → length (join_threads ths) ≡ length ths
unfolding join_threads
length-join_threads [] = refl
length-join_threads (th ∷ ths) = ap suc (length-join_threads ths)

-- ===== src/Reactor/TaskQueue/Wakeups.antt =====
-- Which threads can sleep while there is work for them.
use serach_engine.Base.{
  ℕ, ◌+◌, ◌-◌, ◌≤◌, ◌<◌, ◌≡◌, refl, ap, Bool, true, List, [], ◌∷◌, some, length, length-append,
  arith, Option-cases, inl, inr,
}
use serach_engine.Reactor.TaskQueue.{
  TaskQueue, Holder, Event, init, empty, full, notify_not_empty, notify_not_full, push_body,
  take_front, pop_body, step, run,
}

-- While the flag is up, consumers sleep only if every task in the queue has a woken consumer coming
-- for it; producers sleep only if every free place has a woken producer coming for it.
pub record IsAwake (s : TaskQueue) : Type 0 where
  pub push_seen : s.holder ≡ Holder.push_checked → length s.que ≡ s.queue_size
  pub pop_seen : s.holder ≡ Holder.pop_checked → length s.que ≡ 0
  pub pops : s.flag ≡ true → 0 < s.pop_waiting → length s.que ≤ s.pop_woken
  pub pushes : 0 < s.push_waiting → s.queue_size ≤ length s.que + s.push_woken

-- The same with one woken thread of each kind less: the thread that is running.
record IsRunning (s : TaskQueue) : Type 0 where
  nobody : s.holder ≡ Holder.free
  pops : s.flag ≡ true → 0 < s.pop_waiting → length s.que ≤ s.pop_woken + 1
  pushes : 0 < s.push_waiting → s.queue_size ≤ length s.que + s.push_woken + 1

push_body-IsAwake :
    (task : ℕ) (s : TaskQueue)
    → IsRunning s
    → (s.flag ≡ true → 0 < s.pop_waiting → length s.que ≤ s.pop_woken)
    → IsAwake (push_body task s)
unfolding push_body full notify_not_empty
push_body-IsAwake task s v pops = ground (arith, length-append {0} s.que (task ∷ []))

take_front-IsAwake :
    (q : List ℕ) (s : TaskQueue)
    → s.que ≡ q
    → 0 < length q
    → IsRunning s
    → (0 < s.push_waiting → s.queue_size ≤ length s.que + s.push_woken)
    → IsAwake (take_front q s)
unfolding take_front notify_not_full
take_front-IsAwake [] s e h v pushes = absurd (omega arith)
take_front-IsAwake (task ∷ rest) s e h v pushes = ground (arith, ap length e)

pop_body-IsAwake :
    (s : TaskQueue)
    → IsRunning s
    → (0 < s.push_waiting → s.queue_size ≤ length s.que + s.push_woken)
    → IsAwake (pop_body s)
unfolding pop_body empty
pop_body-IsAwake s v pushes = ground (arith, take_front-IsAwake s.que s refl)

step-IsAwake :
    (e : Event) (s : TaskQueue) {t : TaskQueue} → step e s ≡ some t → IsAwake s → IsAwake t
unfolding step
step-IsAwake (Event.push_enter task) s h v = ground (arith, push_body-IsAwake task s)
step-IsAwake (Event.push_resume task) s h v =
    ground (arith, push_body-IsAwake task (record s { push_woken = s.push_woken - 1 }))
step-IsAwake Event.pop_enter s h v = ground (arith, pop_body-IsAwake s)
step-IsAwake Event.pop_resume s h v =
    ground (arith, pop_body-IsAwake (record s { pop_woken = s.pop_woken - 1 }))
step-IsAwake Event.push_wait s h v = ground arith
step-IsAwake Event.pop_wait s h v = ground arith
step-IsAwake Event.wakeup_flag s h v = ground arith
step-IsAwake Event.wakeup_notify s h v = ground arith
step-IsAwake Event.push_spurious s h v = ground arith
step-IsAwake Event.pop_spurious s h v = ground arith

run-keeps :
    (es : List Event) (s : TaskQueue) {t : TaskQueue} → run es s ≡ some t → IsAwake s → IsAwake t
unfolding run
run-keeps [] s h v = ground arith
run-keeps (e ∷ es) s h v = elim (Option-cases (step e s)) [
  | inl stuck ↦ absurd (ground (arith, stuck))
  | inr (s', done) ↦ run-keeps es s' (rw (done, run) at h) (step-IsAwake e s done v)
]

init-IsAwake : (queue_size : ℕ) (flag : Bool) → IsAwake (init queue_size flag)
unfolding init
init-IsAwake queue_size flag = ground arith

-- No signal between Push and Pop is lost: under every schedule, while the flag is up, a consumer
-- sleeps only if every task in the queue has a woken consumer coming for it, and a producer sleeps
-- only if every free place has a woken producer coming for it.
pub run-IsAwake :
    (queue_size : ℕ) (flag : Bool) (es : List Event) {s : TaskQueue}
    → run es (init queue_size flag) ≡ some s
    → IsAwake s
run-IsAwake queue_size flag es h =
    run-keeps es (init queue_size flag) h (init-IsAwake queue_size flag)

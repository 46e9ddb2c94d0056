-- ===== src/Reactor/TaskQueue/Order.antt =====
-- The queue's bound, and the order of the tasks.
use mathlib.Core.List.{append_assoc}
use serach_engine.Base.{
  ℕ, ◌-◌, ◌≤◌, ◌≡◌, refl, sym, ap, ◌∙◌, Bool, List, [], ◌∷◌, ◌++◌, some, length, length-append,
  arith, Option-cases, inl, inr,
}
use serach_engine.Reactor.TaskQueue.{
  TaskQueue, Event, init, full, notify_not_empty, notify_not_full, push_body, take_front, pop_body,
  step, run,
}

-- Within the bound, and first in, first out: what was taken and what waits is what was put in.
pub record IsOrdered (s : TaskQueue) : Type 0 where
  pub bounded : length s.que ≤ s.queue_size
  pub fifo : s.popped ++ s.que ≡ s.pushed

notify_not_empty-IsOrdered : (s : TaskQueue) → IsOrdered s → IsOrdered (notify_not_empty s)
unfolding notify_not_empty
notify_not_empty-IsOrdered s v = ground arith

notify_not_full-IsOrdered : (s : TaskQueue) → IsOrdered s → IsOrdered (notify_not_full s)
unfolding notify_not_full
notify_not_full-IsOrdered s v = ground arith

push_body-IsOrdered : (task : ℕ) (s : TaskQueue) → IsOrdered s → IsOrdered (push_body task s)
unfolding push_body full
push_body-IsOrdered task s v = ground (
  arith,
  notify_not_empty-IsOrdered
      (record s { que = s.que ++ task ∷ []; pushed = s.pushed ++ task ∷ [] }),
  length-append {0} s.que (task ∷ []),
  append_assoc s.popped s.que (task ∷ []),
)

take_front-IsOrdered :
    (q : List ℕ) (s : TaskQueue) → s.que ≡ q → IsOrdered s → IsOrdered (take_front q s)
unfolding take_front
take_front-IsOrdered [] s e v = v
take_front-IsOrdered (task ∷ rest) s e v = notify_not_full-IsOrdered _ (record {
  bounded = omega (arith, ap length e, v.bounded);
  fifo = append_assoc s.popped (task ∷ []) rest ∙ ap (◌++◌ s.popped) (sym e) ∙ v.fifo;
})

pop_body-IsOrdered : (s : TaskQueue) → IsOrdered s → IsOrdered (pop_body s)
unfolding pop_body
pop_body-IsOrdered s v = ground (arith, take_front-IsOrdered s.que s refl v)

pub step-IsOrdered :
    (e : Event) (s : TaskQueue) {t : TaskQueue} → step e s ≡ some t → IsOrdered s → IsOrdered t
unfolding step
step-IsOrdered (Event.push_enter task) s h v = ground (arith, push_body-IsOrdered task s v)
step-IsOrdered (Event.push_resume task) s h v =
    let s' : TaskQueue = record s { push_woken = s.push_woken - 1 } in
    let v' : IsOrdered s' = record { bounded = v.bounded; fifo = v.fifo } in
    ground (arith, push_body-IsOrdered task s' v')
step-IsOrdered Event.pop_enter s h v = ground (arith, pop_body-IsOrdered s v)
step-IsOrdered Event.pop_resume s h v =
    let s' : TaskQueue = record s { pop_woken = s.pop_woken - 1 } in
    let v' : IsOrdered s' = record { bounded = v.bounded; fifo = v.fifo } in
    ground (arith, pop_body-IsOrdered s' v')
step-IsOrdered _ s h v = ground arith

run-keeps :
    (es : List Event) (s : TaskQueue) {t : TaskQueue}
    → run es s ≡ some t
    → IsOrdered s
    → IsOrdered t
unfolding run
run-keeps [] s h v = ground arith
run-keeps (e ∷ es) s h v = elim (Option-cases (step e s)) [
  | inl stuck ↦ absurd (ground (arith, stuck))
  | inr (s', done) ↦ run-keeps es s' (rw (done, run) at h) (step-IsOrdered e s done v)
]

-- Under every schedule the queue never holds more than queue_size tasks, and the tasks that Pop
-- gave out followed by those in the queue are those that Push put in, in that order.
pub run-IsOrdered :
    (queue_size : ℕ) (flag : Bool) (es : List Event) {s : TaskQueue}
    → run es (init queue_size flag) ≡ some s
    → IsOrdered s
unfolding init
run-IsOrdered queue_size flag es h =
    run-keeps es (init queue_size flag) h (record { bounded = omega arith; fifo = refl })

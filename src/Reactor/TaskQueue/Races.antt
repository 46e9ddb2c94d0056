-- ===== src/Reactor/TaskQueue/Races.antt =====
-- `Wakeup` of src/reactor/task_queue.cc takes no mutex, so a half of it may fall between the test of
-- the flag in `Pop` and the task that it takes.
use serach_engine.Base.{ℕ, ◌≡◌, true, false, List, [], ◌∷◌, some, arith}
use serach_engine.Reactor.TaskQueue.{TaskQueue, Event, take_front, notify_not_full, step}

-- Taking the task after the flag went down, when the test was before, is taking it first.
pub take_front-wakeup_flag :
    (que : List ℕ) (s : TaskQueue) {t : TaskQueue}
    → step Event.wakeup_flag s ≡ some t
    → step Event.wakeup_flag (take_front que s) ≡ some (take_front que t)
unfolding step take_front notify_not_full
take_front-wakeup_flag [] s h = h
take_front-wakeup_flag (task ∷ rest) s {t} h =
    let e : record s { flag = false; notifying = true } ≡ t = cc in rw (← e) (ground arith)

-- So is taking it after the consumers were notified.
pub take_front-wakeup_notify :
    (que : List ℕ) (s : TaskQueue) {t : TaskQueue}
    → step Event.wakeup_notify s ≡ some t
    → step Event.wakeup_notify (take_front que s) ≡ some (take_front que t)
unfolding step take_front notify_not_full
take_front-wakeup_notify [] s h = h
take_front-wakeup_notify (task ∷ rest) s {t} h = ground (arith, h)

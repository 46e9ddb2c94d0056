-- ===== src/Reactor/ThreadPool/Counts.antt =====
-- Counting tasks, and what `Pop` of src/reactor/task_queue.cc gives out.
use mathlib.Core.List.{append-nil}
use serach_engine.Base.{
  ℕ, suc, ◌+◌, ◌≡◌, sym, Bool, true, ◌&&◌, List, [], ◌∷◌, ◌++◌, Option, none, some, length,
  if◌then◌else◌, ◌==◌, nat_eq, arith,
}
use serach_engine.Base.Sets.{contains}
use serach_engine.Reactor.TaskQueue.{
  TaskQueue, empty, push_body, pop_body, take_front, notify_not_empty, notify_not_full,
}
use serach_engine.Reactor.ThreadPool.{front, given, drop_one}

unfoldable pub count : ℕ → List ℕ → ℕ
count k [] = 0
count k (x ∷ xs) = let rest = count k xs in if x == k then suc rest else rest

pub count-append : (k : ℕ) (xs ys : List ℕ) → count k (xs ++ ys) ≡ count k xs + count k ys
unfolding count
count-append k [] ys = omega arith
count-append k (x ∷ xs) ys = ground (arith, count-append k xs ys)

pub count-drop_one :
    (k x : ℕ) (l : List ℕ)
    → contains x l ≡ true
    → count k l ≡ count k (drop_one x l) + count k (x ∷ [])
unfolding count drop_one contains
count-drop_one k x [] h = cc
count-drop_one k x (y ∷ l) h = ground (arith, count-drop_one k x l)

pub length-drop_one :
    (x : ℕ) (l : List ℕ) → contains x l ≡ true → length l ≡ suc (length (drop_one x l))
unfolding drop_one contains
length-drop_one x [] h = cc
length-drop_one x (y ∷ l) h = ground (arith, length-drop_one x l)

abbrev pub to_list : Option ℕ → List ℕ
to_list none = []
to_list (some k) = k ∷ []

-- What a step of the queue gives out: a step of `Pop` what `given` says, any other nothing.
pub push_body-popped : (task : ℕ) (q : TaskQueue) → (push_body task q).popped ≡ q.popped
unfolding push_body notify_not_empty
push_body-popped task q = ground arith

abbrev pub waits : TaskQueue → Bool
waits q = q.flag && empty q

pub take_front-popped :
    (l : List ℕ) (q : TaskQueue) → (take_front l q).popped ≡ q.popped ++ to_list (front l)
unfolding take_front notify_not_full front
take_front-popped [] q = sym (append-nil q.popped)
take_front-popped (k ∷ l) q = ground arith

pub pop_body-popped :
    (q : TaskQueue)
    → (pop_body q).popped ≡ (if waits q then q.popped else q.popped ++ to_list (given q))
unfolding pop_body given
pop_body-popped q = ground (arith, take_front-popped q.que q, append-nil q.popped)

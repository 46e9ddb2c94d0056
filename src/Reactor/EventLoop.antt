-- ===== src/Reactor/EventLoop.antt =====
-- The functors that other threads hand to `EventLoop` of src/reactor/event_loop.cc. `RunInLoop`
-- puts a functor into the list under the mutex and then writes to the event descriptor; the loop
-- reads the descriptor, swaps the list out and calls what it took. The steps of the threads
-- interleave. A functor is a number.
pub mod Functors
pub mod Descriptors
mod Tests
use serach_engine.Base.{
  ℕ, suc, ◌+◌, ◌-◌, Bool, true, false, ◌&&◌, List, [], ◌∷◌, ◌++◌, Option, none, some, ltb,
}

-- Where the loop's thread stands: in `epoll_wait`, between `HandleRead` and the swap, or calling.
pub data Stage : Type 0 where
  waiting drained calling : Stage

pub record EventLoop : Type 0 where
  pub pengings : List ℕ
  -- The number that the event descriptor holds.
  pub counter : ℕ
  -- The threads in `RunInLoop` that have not come to `WakeUp` yet.
  pub posting : ℕ
  pub stage : Stage
  -- `tmp` of `DoPengingFunctors`: what is still to call.
  pub taken : List ℕ
  -- What was handed over and what was called, in order.
  pub posted : List ℕ
  pub called : List ℕ

-- The constructor; `eventfd(10, 0)` starts the counter at 10.
unfoldable pub init : EventLoop
init = record {
  pengings = [];
  counter = 10;
  posting = 0;
  stage = waiting;
  taken = [];
  posted = [];
  called = [];
}

pub data Event : Type 0 where
  -- The two halves of `RunInLoop`.
  post : ℕ → Event
  wake_up : Event
  -- `HandleRead`, the swap, one call, and the end of `DoPengingFunctors`.
  handle_read swap call finish : Event

unfoldable pub is_waiting : Stage → Bool
is_waiting waiting = true
is_waiting drained = false
is_waiting calling = false

unfoldable pub is_drained : Stage → Bool
is_drained waiting = false
is_drained drained = true
is_drained calling = false

unfoldable pub is_calling : Stage → Bool
is_calling waiting = false
is_calling drained = false
is_calling calling = true

abbrev when : Bool → EventLoop → Option EventLoop
when true s = some s
when false s = none

-- `for (cb : tmp) cb()`: the next call.
unfoldable pub call_next : List ℕ → EventLoop → Option EventLoop
call_next [] s = none
call_next (k ∷ rest) s = some (record s { taken = rest; called = s.called ++ k ∷ [] })

unfoldable pub end_calls : List ℕ → EventLoop → Option EventLoop
end_calls [] s = some (record s { stage = waiting })
end_calls (k ∷ rest) s = none

-- One step; `none` where no thread can make it.
unfoldable pub step : Event → EventLoop → Option EventLoop
unfolding is_waiting is_drained is_calling call_next end_calls
step (post k) s = some (record s {
  pengings = s.pengings ++ k ∷ [];
  posted = s.posted ++ k ∷ [];
  posting = suc s.posting;
})
step wake_up s =
    when (ltb 0 s.posting) (record s { posting = s.posting - 1; counter = suc s.counter })
step handle_read s =
    when (is_waiting s.stage && ltb 0 s.counter) (record s { counter = 0; stage = drained })
step swap s =
    when (is_drained s.stage) (record s { taken = s.pengings; pengings = []; stage = calling })
step call s = elim (is_calling s.stage) [ true ↦ call_next s.taken s | false ↦ none ]
step finish s = elim (is_calling s.stage) [ true ↦ end_calls s.taken s | false ↦ none ]

unfoldable pub run : List Event → EventLoop → Option EventLoop
run [] s = some s
run (e ∷ es) s = elim (step e s) [ none ↦ none | some t ↦ run es t ]

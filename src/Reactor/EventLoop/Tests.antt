-- ===== src/Reactor/EventLoop/Tests.antt =====
-- Schedules of the event loop of src/reactor/event_loop.cc.
use serach_engine.Base.{◌≡◌, refl, List, [], ◌∷◌}
use serach_engine.Base.Int.{pos, negsuc, int_beq}
use serach_engine.Reactor.EventLoop.Descriptors.{
  make, destroy, create_epoll_fd, create_event_fd, close_if_set,
}
use serach_engine.Reactor.Socket.{close}
use serach_engine.Reactor.EventLoop.{EventLoop, Stage, Event}

-- The loop has read the descriptor when the second functor comes in.
abbrev late : List Event
late =
    Event.post 1
    ∷ Event.wake_up
    ∷ Event.handle_read
    ∷ Event.swap
    ∷ Event.post 2
    ∷ Event.wake_up
    ∷ Event.call
    ∷ Event.finish
    ∷ []

abbrev after : EventLoop
after = record {
  pengings = 2 ∷ [];
  counter = 1;
  posting = 0;
  stage = Stage.waiting;
  taken = [];
  posted = 1 ∷ 2 ∷ [];
  called = 1 ∷ [];
}

-- The descriptor 0 stays open, and a failed `eventfd` is closed all the same, to no effect.
kept_zero : destroy (make (pos 0) (negsuc 0)).0 (pos 0 ∷ pos 3 ∷ []) ≡ pos 0 ∷ pos 3 ∷ []
unfolding destroy make create_epoll_fd create_event_fd close_if_set close int_beq
kept_zero = refl

closed_both : destroy (make (pos 4) (pos 5)).0 (pos 3 ∷ pos 4 ∷ pos 5 ∷ []) ≡ pos 3 ∷ []
unfolding destroy make create_epoll_fd create_event_fd close_if_set close int_beq
closed_both = refl

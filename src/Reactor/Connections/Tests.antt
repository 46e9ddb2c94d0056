-- ===== src/Reactor/Connections/Tests.antt =====
-- Runs of the model of the connections of src/reactor/event_loop.cc.
use serach_engine.Base.{◌≡◌, refl, bytes, true, false, ok, List, [], ◌∷◌, Fault, fault}
use serach_engine.Base.Int.{pos, int_beq, int_eq}
use serach_engine.Base.Maps.{place, find, insert, erase}
use serach_engine.Base.Sets.{contains}
use serach_engine.Reactor.Connections.{
  is_alive, values, step, add_epoll_read_fd, dispatch_all, dispatch, handle_new_connection,
  handle_message, drop_one, Loop, Ready, Event, init, interrupted, ready, wait, send_in_loop,
  task_end, run, wait_epoll_fd, do_penging_functors,
}
use serach_engine.Reactor.Connections.Dangling.{do_penging_functors-dangling}
use serach_engine.Reactor.Connections.Safe.{receivers}
use serach_engine.Reactor.Connections.Registered.{
  agrees, adds_all, adds_batch, watched, run-IsRegistered,
}

-- The acceptor is 3, the event descriptor 5; a client comes under 7.
abbrev coming : Ready
coming = record {
  fd = pos 3;
  epollin = true;
  peerfd = pos 7;
  adds = true;
  is_closed = false;
  throws = false;
}

abbrev asking : Ready
asking = record {
  fd = pos 7;
  epollin = true;
  peerfd = pos 0;
  adds = true;
  is_closed = false;
  throws = false;
}

abbrev answering : List Event
answering =
    wait (ready (coming ∷ []))
    ∷ wait interrupted
    ∷ wait (ready (asking ∷ []))
    ∷ send_in_loop 0 (bytes "a")
    ∷ task_end 0
    ∷ []

-- The client waits for an answer that its task has handed over.
abbrev answered : Loop
answered = record {
  conns = (pos 7, 0) ∷ [];
  registered = pos 7 ∷ pos 5 ∷ pos 3 ∷ [];
  evt_list_size = 1024;
  acceptor = pos 3;
  evtfd = pos 5;
  made = 1;
  tasks = [];
  pengings = (0, bytes "a") ∷ [];
  send_calls = [];
}

answered-run : run answering (init true true (pos 3) (pos 5)) ≡ ok answered
unfolding run step init add_epoll_read_fd wait_epoll_fd dispatch_all dispatch handle_new_connection
    handle_message drop_one contains find insert int_beq place
answered-run = refl

run-IsRegistered_example :
    agrees true (contains (pos 7) answered.registered) (watched answered (pos 7)) ≡ true
unfolding adds_all adds_batch
run-IsRegistered_example =
    run-IsRegistered true true (pos 3) (pos 5) answering answered answered-run (pos 7) refl

do_penging_functors-dangling_example :
    (t : Loop) × (handle_message (pos 7) true false answered ≡ ok t)
    × (is_alive 0 t ≡ false)
    × (do_penging_functors t ≡ fault Fault.undefined)
unfolding find erase values contains receivers int_beq
do_penging_functors-dangling_example =
    do_penging_functors-dangling (pos 7) 0 false answered refl refl refl

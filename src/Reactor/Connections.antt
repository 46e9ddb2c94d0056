-- ===== src/Reactor/Connections.antt =====
-- The connections of `EventLoop` of src/reactor/event_loop.cc: the map from descriptors to
-- connections, the epoll set, and who still holds a connection. A connection is a number; it lives
-- as long as the map or a task has a `shared_ptr` to it. A functor of `SendInLoop` has only its
-- address. What the kernel answers is in the events.
pub mod Registered
pub mod Safe
pub mod Calm
pub mod Lifetimes
pub mod Dangling
mod Tests
use serach_engine.Base.{
  ℕ, suc, ◌+◌, ◌*◌, Text, Bool, true, false, ◌&&◌, ◌||◌, not, Outcome, Fault, ok, fault, ◌>>=◌,
  List, [], ◌∷◌, ◌++◌, Option, none, some, length, if◌then◌else◌, ◌==◌, nat_eq, nat_beq, leb,
}
use serach_engine.Base.Int.{ℤ, pos, negsuc, int_eq, ltb_ℤ}
use serach_engine.Base.Maps.{find, insert, erase}
use serach_engine.Base.Sets.{contains}

pub record Loop : Type 0 where
  -- `_conns`, and the descriptors that epoll watches.
  pub conns : List (ℤ × ℕ)
  pub registered : List ℤ
  -- The length of `_evtList`, and the descriptors of the acceptor and of the event descriptor.
  pub evt_list_size : ℕ
  pub acceptor : ℤ
  pub evtfd : ℤ
  -- The connections made so far, numbered in order.
  pub made : ℕ
  -- The connections that tasks hold.
  pub tasks : List ℕ
  -- `[this, msg]{Send(msg);}`.
  pub pengings : List (ℕ × Text)
  -- The calls of `Send`, in order; what the kernel took of the text is in Reactor/TcpConnection.
  pub send_calls : List (ℕ × Text)

-- `EventLoop::AddEpollReadFd`: a descriptor that is not open, or there already, is an error, and
-- `adds` is whether `epoll_ctl` succeeds otherwise. An error is only printed.
unfoldable pub add_epoll_read_fd : Bool → ℤ → Loop → Loop
add_epoll_read_fd adds fd s =
    if not adds || (ltb_ℤ fd (pos 0) || contains fd s.registered)
    then s
    else record s { registered = fd ∷ s.registered }

unfoldable pub remove : ℤ → List ℤ → List ℤ
remove fd [] = []
remove fd (x ∷ xs) = if x == fd then remove fd xs else x ∷ remove fd xs

-- `EventLoop::DelEpollReadFd`.
unfoldable pub del_epoll_read_fd : ℤ → Loop → Loop
unfolding remove
del_epoll_read_fd fd s = record s { registered = remove fd s.registered }

-- The constructor; the two tests are what `epoll_ctl` does with the descriptor of the acceptor and
-- with the event descriptor, and both fail when `epoll_create` did.
unfoldable pub init : Bool → Bool → ℤ → ℤ → Loop
unfolding add_epoll_read_fd
init acceptor_adds evtfd_adds acceptor evtfd = add_epoll_read_fd evtfd_adds evtfd (
    add_epoll_read_fd acceptor_adds acceptor (record {
      conns = [];
      registered = [];
      evt_list_size = 1024;
      acceptor = acceptor;
      evtfd = evtfd;
      made = 0;
      tasks = [];
      pengings = [];
      send_calls = [];
    }))

-- The connections in the map.
unfoldable pub values : List (ℤ × ℕ) → List ℕ
values [] = []
values ((fd, con) ∷ m) = con ∷ values m

unfoldable pub is_alive : ℕ → Loop → Bool
unfolding values
is_alive con s = contains con (values s.conns) || contains con s.tasks

-- `EventLoop::HandleNewConnection`, where `accept` gave `peerfd`; an error is a descriptor as any.
unfoldable pub handle_new_connection : Bool → ℤ → Loop → Loop
unfolding add_epoll_read_fd
handle_new_connection adds peerfd s =
    let t = add_epoll_read_fd adds peerfd s in
    record t { conns = insert ltb_ℤ peerfd t.made t.conns; made = suc t.made }

-- `EventLoop::HandleMessage`; the message callback makes a task that holds the connection, or
-- `throws`, as those of the key server and of the web server do on an empty message.
unfoldable pub handle_message : ℤ → Bool → Bool → Loop → Outcome Loop
unfolding del_epoll_read_fd
handle_message fd is_closed throws s = elim (find fd s.conns) [
  | none ↦ ok s
  | some con ↦
      if is_closed
      then (let t = del_epoll_read_fd fd s in ok (record t { conns = erase fd t.conns }))
      else if throws
      then fault Fault.out_of_range
      else ok (record s { tasks = con ∷ s.tasks })
]

-- The calls of `DoPengingFunctors`: to send on a connection that is gone is undefined.
unfoldable pub call_functors : List (ℕ × Text) → Loop → Outcome Loop
unfolding is_alive
call_functors [] s = ok s
call_functors ((con, msg) ∷ rest) s = elim (is_alive con s) [
  | true ↦ call_functors rest (record s { send_calls = s.send_calls ++ (con, msg) ∷ [] })
  | false ↦ fault Fault.undefined
]

-- `EventLoop::DoPengingFunctors`.
unfoldable pub do_penging_functors : Loop → Outcome Loop
unfolding call_functors
do_penging_functors s = call_functors s.pengings (record s { pengings = [] })

-- An entry of `_evtList`, with what `accept` and `epoll_ctl` or `recv` and the message callback do
-- if they are called for it.
pub record Ready : Type 0 where
  pub fd : ℤ
  pub epollin : Bool
  pub peerfd : ℤ
  pub adds : Bool
  pub is_closed : Bool
  pub throws : Bool

-- The body of the loop of `WaitEpollFd`.
unfoldable pub dispatch : Ready → Loop → Outcome Loop
unfolding handle_new_connection handle_message do_penging_functors
dispatch e s =
    if e.fd == s.acceptor
    then ok (if e.epollin then handle_new_connection e.adds e.peerfd s else s)
    else if e.fd == s.evtfd
    then do_penging_functors s
    else if e.epollin
    then handle_message e.fd e.is_closed e.throws s
    else ok s

unfoldable pub dispatch_all : List Ready → Loop → Outcome Loop
unfolding dispatch
dispatch_all [] s = ok s
dispatch_all (e ∷ es) s = do t ← dispatch e s; dispatch_all es t

-- What `epoll_wait` gives.
pub data Poll : Type 0 where
  interrupted failed : Poll
  ready : List Ready → Poll

-- `EventLoop::WaitEpollFd`, once for each reply that it takes; `interrupted` asks again.
unfoldable pub wait_epoll_fd : Poll → Loop → Outcome Loop
unfolding dispatch_all
wait_epoll_fd interrupted s = ok s
wait_epoll_fd failed s = ok s
wait_epoll_fd (ready es) s =
    dispatch_all es (
      if nat_beq (length es) s.evt_list_size then record s { evt_list_size = 2 * length es } else s)

-- A task's end drops one of its connection's holders.
unfoldable pub drop_one : ℕ → List ℕ → List ℕ
drop_one con [] = []
drop_one con (x ∷ xs) = if x == con then xs else x ∷ drop_one con xs

pub data Event : Type 0 where
  wait : Poll → Event
  -- A task calls `SendInLoop`; a task ends.
  send_in_loop : ℕ → Text → Event
  task_end : ℕ → Event

-- One step of the loop or of a task; a task works on the connection that it holds.
unfoldable pub step : Event → Loop → Outcome Loop
unfolding wait_epoll_fd drop_one
step (wait p) s = wait_epoll_fd p s
step (send_in_loop con msg) s =
    ok (if contains con s.tasks then record s { pengings = s.pengings ++ (con, msg) ∷ [] } else s)
step (task_end con) s = ok (record s { tasks = drop_one con s.tasks })

unfoldable pub run : List Event → Loop → Outcome Loop
run [] s = ok s
run (e ∷ es) s = do t ← step e s; run es t

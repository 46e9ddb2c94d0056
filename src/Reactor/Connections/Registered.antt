-- ===== src/Reactor/Connections/Registered.antt =====
-- The epoll set and the map of connections of src/reactor/event_loop.cc, kept together.
use serach_engine.Base.{
  ◌≡◌, refl, ap, ◌∙◌, Text, Bool, true, false, not, ◌&&◌, ◌||◌, Outcome, Fault, ok, fault, OnOk,
  OnOk-ok, OnOk-fault, OnOk->>=, List, [], ◌∷◌, ◌++◌, Option, none, some, length, if◌then◌else◌,
  ◌==◌, nat_eq, nat_beq, ◌*◌, arith, Bool-cases, inl, inr, ℕ,
}
use serach_engine.Base.Int.{ℤ, pos, int_eq, int_beq_iff, ltb_ℤ}
use serach_engine.Base.Maps.{find, insert, erase, find-insert_or, find-erase, or_else}
use serach_engine.Base.Sets.{contains}
use serach_engine.Reactor.Connections.{
  Loop, Ready, Event, init, add_epoll_read_fd, remove, del_epoll_read_fd, is_alive,
  handle_new_connection, handle_message, call_functors, do_penging_functors, dispatch, dispatch_all,
  interrupted, failed, ready, wait_epoll_fd, wait, send_in_loop, task_end, step, run, drop_one,
}

is_some {ℓ} : {A : Type ℓ} → Option A → Bool
is_some none = false
is_some (some a) = true

-- The map has a connection under the descriptor.
unfoldable pub has_conn : ℤ → List (ℤ × ℕ) → Bool
unfolding is_some
has_conn fd m = is_some (find fd m)

-- The descriptors that epoll should watch.
abbrev pub watched : Loop → ℤ → Bool
watched s fd = has_conn fd s.conns || (s.acceptor == fd || s.evtfd == fd)

-- What epoll has is what it should have, or, when it is not `exact`, no more than that.
unfoldable pub agrees : Bool → Bool → Bool → Bool
agrees exact has should =
    if exact then (if has then should else not should) else (not has || should)

-- Of the descriptors that are not negative, epoll watches no other than those, and when it is
-- `exact` all of them.
abbrev pub IsRegistered : Bool → Loop → Type 0
IsRegistered exact s =
    (fd : ℤ)
    → ltb_ℤ fd (pos 0) ≡ false
    → agrees exact (contains fd s.registered) (watched s fd) ≡ true

-- Epoll takes every connection of the batch, and of the run.
unfoldable pub adds_batch : List Ready → Bool
adds_batch [] = true
adds_batch (e ∷ es) = e.adds && adds_batch es

unfoldable pub adds_all : List Event → Bool
unfolding adds_batch
adds_all [] = true
adds_all (wait interrupted ∷ es) = adds_all es
adds_all (wait failed ∷ es) = adds_all es
adds_all (wait (ready batch) ∷ es) = adds_batch batch && adds_all es
adds_all (send_in_loop con msg ∷ es) = adds_all es
adds_all (task_end con ∷ es) = adds_all es

contains-remove :
    (fd x : ℤ) (l : List ℤ) → contains x (remove fd l) ≡ (if fd == x then false else contains x l)
unfolding contains remove
contains-remove fd x [] = ground arith
contains-remove fd x (y ∷ l) =
    ground (arith, contains-remove fd x l, int_beq_iff y fd, int_beq_iff y x, int_beq_iff fd x)

has_conn-insert :
    (fd x : ℤ) (con : ℕ) (m : List (ℤ × ℕ))
    → has_conn x (insert ltb_ℤ fd con m) ≡ (has_conn x m || fd == x)
unfolding has_conn is_some or_else
has_conn-insert fd x con m =
    ap is_some (find-insert_or ltb_ℤ fd x con m) ∙ either (find x m) (fd == x)
  where
    either :
        (o : Option ℕ) (b : Bool)
        → is_some (or_else o (if b then some con else none)) ≡ (is_some o || b)
    either none true = refl
    either none false = refl
    either (some u) b = refl

has_conn-erase :
    (fd x : ℤ) (m : List (ℤ × ℕ))
    → has_conn x (erase fd m) ≡ (if fd == x then false else has_conn x m)
unfolding has_conn is_some
has_conn-erase fd x m = ap is_some (find-erase fd x m) ∙ either (fd == x)
  where
    either :
        (b : Bool)
        → is_some (if b then none else find x m) ≡ (if b then false else is_some (find x m))
    either true = refl
    either false = refl

contains-add_epoll_read_fd :
    (adds : Bool) (fd x : ℤ) (s : Loop)
    → ltb_ℤ x (pos 0) ≡ false
    → contains x (add_epoll_read_fd adds fd s).registered
      ≡ (contains x s.registered || (adds && fd == x))
unfolding add_epoll_read_fd contains
contains-add_epoll_read_fd adds fd x s h = ground (arith, int_beq_iff fd x)

add_epoll_read_fd-conns :
    (adds : Bool) (fd : ℤ) (s : Loop) → (add_epoll_read_fd adds fd s).conns ≡ s.conns
unfolding add_epoll_read_fd
add_epoll_read_fd-conns adds fd s = ground arith

add_epoll_read_fd-acceptor :
    (adds : Bool) (fd : ℤ) (s : Loop) → (add_epoll_read_fd adds fd s).acceptor ≡ s.acceptor
unfolding add_epoll_read_fd
add_epoll_read_fd-acceptor adds fd s = ground arith

add_epoll_read_fd-evtfd :
    (adds : Bool) (fd : ℤ) (s : Loop) → (add_epoll_read_fd adds fd s).evtfd ≡ s.evtfd
unfolding add_epoll_read_fd
add_epoll_read_fd-evtfd adds fd s = ground arith

unequal : (a b : ℤ) → (a == b) ≡ false → (b == a) ≡ false
unequal a b h = ground (arith, int_beq_iff a b, int_beq_iff b a)

agrees-or :
    (exact adds has conn fixed new : Bool)
    → (not exact || adds) ≡ true
    → agrees exact has (conn || fixed) ≡ true
    → agrees exact (has || (adds && new)) ((conn || new) || fixed) ≡ true
unfolding agrees
agrees-or exact adds has conn fixed new h v = ground (arith, h, v)

module _ (exact : Bool) where
  handle_new_connection-IsRegistered :
      (adds : Bool) (peerfd : ℤ) (s : Loop)
      → (not exact || adds) ≡ true
      → IsRegistered exact s
      → IsRegistered exact (handle_new_connection adds peerfd s)
  unfolding handle_new_connection
  handle_new_connection-IsRegistered adds peerfd s ok_add v fd h =
      rw
        (
          contains-add_epoll_read_fd adds peerfd fd s h,
          add_epoll_read_fd-conns adds peerfd s,
          add_epoll_read_fd-acceptor adds peerfd s,
          add_epoll_read_fd-evtfd adds peerfd s,
          has_conn-insert peerfd fd (add_epoll_read_fd adds peerfd s).made s.conns,
        )
        (agrees-or exact adds (contains fd s.registered) (has_conn fd s.conns)
          (s.acceptor == fd || s.evtfd == fd) (peerfd == fd) ok_add (v fd h))

  erase-IsRegistered :
      (fd : ℤ) (s : Loop)
      → (s.acceptor == fd) ≡ false
      → (s.evtfd == fd) ≡ false
      → IsRegistered exact s
      → IsRegistered exact
          (record s { registered = remove fd s.registered; conns = erase fd s.conns })
  unfolding agrees
  erase-IsRegistered fd s a e v x h = ground (
    arith,
    contains-remove fd x s.registered,
    has_conn-erase fd x s.conns,
    v x h,
    int_beq_iff fd x,
    int_beq_iff s.acceptor fd,
    int_beq_iff s.evtfd fd,
    int_beq_iff s.acceptor x,
    int_beq_iff s.evtfd x,
  )

  handle_message-IsRegistered :
      (fd : ℤ) (closed throws : Bool) (s : Loop)
      → (s.acceptor == fd) ≡ false
      → (s.evtfd == fd) ≡ false
      → IsRegistered exact s
      → OnOk (IsRegistered exact) (handle_message fd closed throws s)
  unfolding handle_message del_epoll_read_fd
  handle_message-IsRegistered fd closed throws s a e v = by_found (find fd s.conns) closed throws
    where
      by_found :
          (o : Option ℕ) (c t : Bool)
          → OnOk (IsRegistered exact) (elim o as (λ p. Outcome Loop) [
            | none ↦ ok s
            | some con ↦
                if c
                then ok (record s { registered = remove fd s.registered; conns = erase fd s.conns })
                else if t
                then fault Fault.out_of_range
                else ok (record s { tasks = con ∷ s.tasks })
          ])
      by_found none c t = OnOk-ok (IsRegistered exact) s v
      by_found (some con) true t = OnOk-ok (IsRegistered exact) _ (erase-IsRegistered fd s a e v)
      by_found (some con) false true = OnOk-fault (IsRegistered exact) Fault.out_of_range
      by_found (some con) false false =
          OnOk-ok (IsRegistered exact) (record s { tasks = con ∷ s.tasks }) v

  call_functors-IsRegistered :
      (fs : List (ℕ × Text)) (s : Loop)
      → IsRegistered exact s
      → OnOk (IsRegistered exact) (call_functors fs s)
  unfolding call_functors
  call_functors-IsRegistered [] s v = OnOk-ok (IsRegistered exact) s v
  call_functors-IsRegistered ((con, msg) ∷ fs) s v =
      let t : Loop = record s { send_calls = s.send_calls ++ (con, msg) ∷ [] } in
      elim (is_alive con s)
        as (λ b.
          OnOk (IsRegistered exact)
            (elim b [ true ↦ call_functors fs t | false ↦ fault Fault.undefined ])) [
              | true ↦ call_functors-IsRegistered fs t v
              | false ↦ OnOk-fault (IsRegistered exact) Fault.undefined
            ]

  dispatch-IsRegistered :
      (e : Ready) (s : Loop)
      → (not exact || e.adds) ≡ true
      → IsRegistered exact s
      → OnOk (IsRegistered exact) (dispatch e s)
  unfolding dispatch do_penging_functors
  dispatch-IsRegistered e s ok_add v = elim (Bool-cases (e.fd == s.acceptor)) [
    | inl new ↦
        rw (new, dispatch)
          (ready_if e.epollin (handle_new_connection e.adds e.peerfd s)
            (handle_new_connection-IsRegistered e.adds e.peerfd s ok_add v))
    | inr old ↦ elim (Bool-cases (e.fd == s.evtfd)) [
      | inl woken ↦
          rw (old, woken, dispatch)
            (call_functors-IsRegistered s.pengings (record s { pengings = [] }) v)
      | inr message ↦
          rw (old, message, dispatch)
            (called_if e.epollin (handle_message e.fd e.is_closed e.throws s) (
              handle_message-IsRegistered e.fd e.is_closed e.throws s (unequal e.fd s.acceptor old)
                (unequal e.fd s.evtfd message) v))
    ]
  ]
    where
      ready_if :
          (b : Bool) (t : Loop)
          → IsRegistered exact t
          → OnOk (IsRegistered exact) (ok (if b then t else s))
      ready_if true t w = OnOk-ok (IsRegistered exact) t w
      ready_if false t w = OnOk-ok (IsRegistered exact) s v

      called_if :
          (b : Bool) (call : Outcome Loop)
          → OnOk (IsRegistered exact) call
          → OnOk (IsRegistered exact) (if b then call else ok s)
      called_if true call w = w
      called_if false call w = OnOk-ok (IsRegistered exact) s v

  dispatch_all-IsRegistered :
      (es : List Ready) (s : Loop)
      → (not exact || adds_batch es) ≡ true
      → IsRegistered exact s
      → OnOk (IsRegistered exact) (dispatch_all es s)
  unfolding dispatch_all adds_batch
  dispatch_all-IsRegistered [] s h v = OnOk-ok (IsRegistered exact) s v
  dispatch_all-IsRegistered (e ∷ es) s h v =
      OnOk->>= (IsRegistered exact) (IsRegistered exact) (dispatch e s) (dispatch_all es)
        (dispatch-IsRegistered e s (ground (arith, h)) v)
        (λ t w. dispatch_all-IsRegistered es t (ground (arith, h)) w)

  wait-IsRegistered :
      (es : List Ready) (s : Loop)
      → (not exact || adds_batch es) ≡ true
      → IsRegistered exact s
      → OnOk (IsRegistered exact) (wait_epoll_fd (ready es) s)
  unfolding wait_epoll_fd
  wait-IsRegistered es s h v =
      dispatch_all-IsRegistered es
        (if nat_beq (length es) s.evt_list_size
          then record s { evt_list_size = 2 * length es }
          else s)
        h (by_size (nat_beq (length es) s.evt_list_size))
    where
      by_size :
          (b : Bool)
          → IsRegistered exact (if b then record s { evt_list_size = 2 * length es } else s)
      by_size true = v
      by_size false = v

  send_in_loop-IsRegistered :
      (con : ℕ) (msg : Text) (s : Loop)
      → IsRegistered exact s
      → (b : Bool)
      → OnOk
          (IsRegistered exact)
          (ok (if b then record s { pengings = s.pengings ++ (con, msg) ∷ [] } else s))
  send_in_loop-IsRegistered con msg s v true =
      OnOk-ok (IsRegistered exact) (record s { pengings = s.pengings ++ (con, msg) ∷ [] }) v
  send_in_loop-IsRegistered con msg s v false = OnOk-ok (IsRegistered exact) s v

  run-OnOk :
      (es : List Event) (s : Loop)
      → (not exact || adds_all es) ≡ true
      → IsRegistered exact s
      → OnOk (IsRegistered exact) (run es s)
  unfolding run step adds_all wait_epoll_fd
  run-OnOk [] s h v = OnOk-ok (IsRegistered exact) s v
  run-OnOk (wait interrupted ∷ es) s h v = run-OnOk es s h v
  run-OnOk (wait failed ∷ es) s h v = run-OnOk es s h v
  run-OnOk (wait (ready batch) ∷ es) s h v =
      OnOk->>= (IsRegistered exact) (IsRegistered exact) (wait_epoll_fd (ready batch) s) (run es)
        (wait-IsRegistered batch s (ground (arith, h)) v)
        (λ t w. run-OnOk es t (ground (arith, h)) w)
  run-OnOk (send_in_loop con msg ∷ es) s h v =
      OnOk->>= (IsRegistered exact) (IsRegistered exact) (step (send_in_loop con msg) s) (run es)
        (send_in_loop-IsRegistered con msg s v (contains con s.tasks)) (λ t w. run-OnOk es t h w)
  run-OnOk (task_end con ∷ es) s h v = run-OnOk es (record s { tasks = drop_one con s.tasks }) h v

init-IsRegistered :
    (exact a b : Bool) (acceptor evtfd : ℤ)
    → (not exact || (a && b)) ≡ true
    → IsRegistered exact (init a b acceptor evtfd)
unfolding init add_epoll_read_fd contains has_conn is_some find agrees
init-IsRegistered exact a b acceptor evtfd h₀ fd h =
    ground (arith, int_beq_iff acceptor fd, int_beq_iff evtfd fd, int_beq_iff acceptor evtfd, h₀)

-- In every state that a run comes to, of the descriptors that are not negative epoll watches none
-- but the acceptor, the event descriptor and those under which the map has a connection; and when
-- no registration failed, neither in the constructor nor in the run, it watches all of these.
pub run-IsRegistered :
    (acceptor_adds evtfd_adds : Bool) (acceptor evtfd : ℤ) (es : List Event) (s : Loop)
    → run es (init acceptor_adds evtfd_adds acceptor evtfd) ≡ ok s
    → IsRegistered ((acceptor_adds && evtfd_adds) && adds_all es) s
run-IsRegistered a b acceptor evtfd es s r =
    let exact = (a && b) && adds_all es in
    run-OnOk exact es (init a b acceptor evtfd) (ground arith)
      (init-IsRegistered exact a b acceptor evtfd (ground arith)) s r

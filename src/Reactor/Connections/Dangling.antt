-- ===== src/Reactor/Connections/Dangling.antt =====
-- The functors of `SendInLoop` (src/reactor/tcp_connection.cc) that have the address of a connection
-- which src/reactor/event_loop.cc has let go.
use serach_engine.Base.{
  ℕ, ◌≡◌, refl, Text, Bool, true, false, ◌||◌, Fault, ok, fault, List, [], ◌∷◌, ◌++◌, some, ◌==◌,
  nat_eq, nat_beq_iff, arith, Bool-cases, inl, inr,
}
use serach_engine.Base.Int.{ℤ, int_eq}
use serach_engine.Base.Maps.{find, erase}
use serach_engine.Base.Sets.{contains}
use serach_engine.Reactor.Connections.Safe.{receivers}
use serach_engine.Reactor.Connections.{
  Loop, values, remove, del_epoll_read_fd, is_alive, handle_message, call_functors,
  do_penging_functors,
}

-- One of the functors is for a connection that is gone.
call_functors-dangling :
    (con : ℕ) (fs : List (ℕ × Text)) (s : Loop)
    → is_alive con s ≡ false
    → contains con (receivers fs) ≡ true
    → call_functors fs s ≡ fault Fault.undefined
unfolding call_functors receivers contains is_alive
call_functors-dangling con [] s dead h = cc
call_functors-dangling con ((other, msg) ∷ fs) s dead h = elim (Bool-cases (is_alive other s)) [
  | inl alive ↦
      rw (call_functors, alive)
        (call_functors-dangling con fs (record s { send_calls = s.send_calls ++ (other, msg) ∷ [] })
          dead (later alive))
  | inr gone ↦ rw (call_functors, gone) refl
]
  where
    later : is_alive other s ≡ true → contains con (receivers fs) ≡ true
    later alive = elim (Bool-cases (other == con)) [
      | inl same ↦
          let e : other ≡ con = (nat_beq_iff other con).0 same in
          let both : is_alive con s ≡ true = rw (← e) alive in cc
      | inr different ↦ ground (arith, h, different)
    ]

-- When a client closes whose connection no task holds and which the map has under no other
-- descriptor, HandleMessage lets the connection go; and if a functor for it waits, wherever in the
-- list, DoPengingFunctors is then undefined.
pub do_penging_functors-dangling :
    (fd : ℤ) (con : ℕ) (throws : Bool) (s : Loop)
    → find fd s.conns ≡ some con
    → (contains con (values (erase fd s.conns)) || contains con s.tasks) ≡ false
    → contains con (receivers s.pengings) ≡ true
    → (t : Loop) × (handle_message fd true throws s ≡ ok t)
      × (is_alive con t ≡ false)
      × (do_penging_functors t ≡ fault Fault.undefined)
unfolding handle_message del_epoll_read_fd do_penging_functors is_alive
do_penging_functors-dangling fd con throws s found dead waits =
    let t : Loop = record s { registered = remove fd s.registered; conns = erase fd s.conns } in
    (
      t,
      rw (found, handle_message) refl,
      dead,
      call_functors-dangling con s.pengings (record t { pengings = [] }) dead waits,
    )

-- ===== src/Reactor/Connections/Calm.antt =====
-- Runs of src/reactor/event_loop.cc in which no client closes and no callback throws.
use serach_engine.Base.{
  ◌≡◌, refl, Text, Bool, true, false, ◌&&◌, ◌||◌, not, Outcome, ◌>>=◌, List, [], ◌∷◌, ◌++◌, length,
  if◌then◌else◌, ◌==◌, nat_eq, nat_beq, nat_beq_iff, arith, Bool-cases, inl, inr, ℕ, ◌*◌,
}
use serach_engine.Base.Int.{ℤ, pos, int_eq, ltb_ℤ}
use serach_engine.Base.Sets.{contains}
use serach_engine.Reactor.Connections.{
  Loop, Ready, Event, init, add_epoll_read_fd, dispatch, dispatch_all, interrupted, failed, ready,
  wait_epoll_fd, wait, send_in_loop, task_end, step, run, drop_one,
}
use serach_engine.Reactor.Connections.Safe.{
  receivers, contains-receivers, contains-drop_one, IsSafe, Succeeds, dispatch-Succeeds,
}

-- No client of the batch has closed, and no message callback throws.
unfoldable pub all_open : List Ready → Bool
all_open [] = true
all_open (e ∷ es) = (not e.is_closed && not e.throws) && all_open es

unfoldable pub is_calm : Event → Bool
unfolding all_open
is_calm (wait interrupted) = true
is_calm (wait failed) = true
is_calm (wait (ready es)) = all_open es
is_calm (send_in_loop con msg) = true
is_calm (task_end con) = true

-- No client closes in the run and no message callback throws.
unfoldable pub all_calm : List Event → Bool
unfolding is_calm
all_calm [] = true
all_calm (e ∷ es) = is_calm e && all_calm es

pub open-first :
    (e : Ready) (es : List Ready)
    → all_open (e ∷ es) ≡ true
    → (e.is_closed ≡ false) × (e.throws ≡ false) × (all_open es ≡ true)
unfolding all_open
open-first e es h = (ground (arith, h), ground (arith, h), ground (arith, h))

pub calm-first :
    (e : Event) (es : List Event)
    → all_calm (e ∷ es) ≡ true
    → (is_calm e ≡ true) × (all_calm es ≡ true)
unfolding all_calm
calm-first e es h = (ground (arith, h), ground (arith, h))

pub >>=-Succeeds :
    (call : Outcome Loop) (rest : Loop → Outcome Loop)
    → Succeeds call
    → ((t : Loop) → IsSafe t → Succeeds (rest t))
    → Succeeds (call >>= rest)
>>=-Succeeds call rest (t, first, v) next = rw (first) (next t v)

pub dispatch_all-Succeeds :
    (es : List Ready) (s : Loop) → all_open es ≡ true → IsSafe s → Succeeds (dispatch_all es s)
unfolding dispatch_all
dispatch_all-Succeeds [] s up v = (s, refl, v)
dispatch_all-Succeeds (e ∷ es) s up v =
    let (first, returns, others) = open-first e es up in
    >>=-Succeeds (dispatch e s) (dispatch_all es) (dispatch-Succeeds e s first returns v)
      (λ t w. dispatch_all-Succeeds es t others w)

pub send_in_loop-IsSafe :
    (con : ℕ) (msg : Text) (s : Loop)
    → contains con s.tasks ≡ true
    → IsSafe s
    → IsSafe (record s { pengings = s.pengings ++ (con, msg) ∷ [] })
send_in_loop-IsSafe con msg s held v x h = elim (Bool-cases (con == x)) [
  | inl same ↦ v x (rw (← (nat_beq_iff con x).0 same, held) refl)
  | inr other ↦ v x (ground (arith, contains-receivers x con msg s.pengings, h, other))
]

pub task_end-IsSafe :
    (con : ℕ) (s : Loop) → IsSafe s → IsSafe (record s { tasks = drop_one con s.tasks })
task_end-IsSafe con s v x h = v x (ground (arith, contains-drop_one x con s.tasks, h))

pub step-Succeeds : (e : Event) (s : Loop) → is_calm e ≡ true → IsSafe s → Succeeds (step e s)
unfolding step wait_epoll_fd is_calm
step-Succeeds (wait interrupted) s up v = (s, refl, v)
step-Succeeds (wait failed) s up v = (s, refl, v)
step-Succeeds (wait (ready es)) s up v =
    dispatch_all-Succeeds es
      (if nat_beq (length es) s.evt_list_size
        then record s { evt_list_size = 2 * length es }
        else s)
      up (by_size (nat_beq (length es) s.evt_list_size))
  where
    by_size : (b : Bool) → IsSafe (if b then record s { evt_list_size = 2 * length es } else s)
    by_size true = v
    by_size false = v
step-Succeeds (send_in_loop con msg) s up v = elim (Bool-cases (contains con s.tasks)) [
  | inl held ↦
      rw (held, step)
        ((
          record s { pengings = s.pengings ++ (con, msg) ∷ [] },
          refl,
          send_in_loop-IsSafe con msg s held v,
        ))
  | inr dropped ↦ rw (dropped, step) ((s, refl, v))
]
step-Succeeds (task_end con) s up v =
    (record s { tasks = drop_one con s.tasks }, refl, task_end-IsSafe con s v)

pub run-Succeeds :
    (es : List Event) (s : Loop) → all_calm es ≡ true → IsSafe s → Succeeds (run es s)
unfolding run all_calm
run-Succeeds [] s up v = (s, refl, v)
run-Succeeds (e ∷ es) s up v =
    >>=-Succeeds (step e s) (run es) (step-Succeeds e s (calm-first e es up).0 v)
      (λ t w. run-Succeeds es t (calm-first e es up).1 w)

pub add_epoll_read_fd-IsSafe :
    (adds : Bool) (fd : ℤ) (s : Loop) → IsSafe s → IsSafe (add_epoll_read_fd adds fd s)
unfolding add_epoll_read_fd
add_epoll_read_fd-IsSafe adds fd s v =
    by_watched (not adds || (ltb_ℤ fd (pos 0) || contains fd s.registered))
  where
    by_watched : (b : Bool) → IsSafe (if b then s else record s { registered = fd ∷ s.registered })
    by_watched true = v
    by_watched false = v

pub init-IsSafe : (a b : Bool) (acceptor evtfd : ℤ) → IsSafe (init a b acceptor evtfd)
unfolding init contains receivers
init-IsSafe a b acceptor evtfd =
    add_epoll_read_fd-IsSafe b evtfd (add_epoll_read_fd a acceptor start)
      (add_epoll_read_fd-IsSafe a acceptor start (λ x h. cc))
  where
    start : Loop
    start = record {
      conns = [];
      registered = [];
      evt_list_size = 1024;
      acceptor = acceptor;
      evtfd = evtfd;
      made = 0;
      tasks = [];
      pengings = [];
      send_calls = [];
    }

-- ===== src/Reactor/Thread.antt =====
-- `Thread` of src/reactor/thread.cc: whether there is a thread to join. What pthread answers is in
-- the arguments.
use serach_engine.Base.{ℕ, Option, none, some, Bool, true, false, if◌then◌else◌, nat_beq}

pub record Thread : Type 0 where
  pub is_running : Bool

-- The constructor.
abbrev pub init : Thread
init = record { is_running = false }

-- `Thread::Start`, where `pthread_create` gave `ret`.
unfoldable pub start : ℕ → Thread → ℕ × Thread
start ret th = if nat_beq ret 0 then (0, record { is_running = true }) else (ret, th)

-- `Thread::Join`, where `pthread_join` gives `ret` if it is called.
unfoldable pub join : ℕ → Thread → ℕ × Thread
join ret th = if th.is_running then (ret, record { is_running = false }) else (0, th)

-- `Thread::~Thread`: whether it calls `pthread_detach`.
unfoldable pub destroy : Thread → Bool
destroy th = th.is_running

-- `Thread::ThreadFunc`: the callback, if the argument is a thread; what it does is a parameter.
unfoldable pub thread_func {ℓ} : {W : Type ℓ} → Option (W → W) → W → W
thread_func none w = w
thread_func (some cb) w = cb w

-- ===== src/Key/MyTimer.antt =====
-- `MyTimer` of src/key/mytimer.cc. A time is what `gettimeofday` gives; a field that no statement
-- has set is `none`.
pub mod Totals
mod Tests
use serach_engine.Base.{
  ℕ, zero, suc, ◌+◌, ◌*◌, Text, bytes, Bool, true, false, ◌++◌, List, [], ◌∷◌, Option, none, some,
  Outcome, Fault, ok, fault,
}
use serach_engine.Base.Int.{ℤ, pos, negsuc, sub_ℕ}

-- `struct timeval`.
pub record Timeval : Type 0 where
  pub tv_sec : ℕ
  pub tv_usec : ℕ

pub record MyTimer : Type 0 where
  pub num : Option ℤ
  pub flag : Bool
  pub begin_time : Option Timeval
  pub end_time : Option Timeval
  pub total_time : Option ℤ

-- `MyTimer::MyTimer()`, at that time.
unfoldable pub init : Timeval → MyTimer
init now = record {
  num = none;
  flag = false;
  begin_time = some now;
  end_time = none;
  total_time = none;
}

-- `MyTimer::MyTimer(int)`.
unfoldable pub init_num : ℤ → MyTimer
init_num num = record {
  num = some num;
  flag = true;
  begin_time = none;
  end_time = none;
  total_time = some (pos 0);
}

-- `MyTimer::start` and `MyTimer::stop`, at that time.
unfoldable pub start : Timeval → MyTimer → MyTimer
start now t = record t { begin_time = some now }

unfoldable pub stop : Timeval → MyTimer → MyTimer
stop now t = record t { end_time = some now }

-- `MyTimer::getTime`: a field that is not set is undefined.
unfoldable pub get_time : MyTimer → Outcome ℤ
get_time t = elim t.total_time [ none ↦ fault Fault.undefined | some n ↦ ok n ]

-- The microseconds between two times.
unfoldable pub elapsed : Timeval → Timeval → ℤ
elapsed begin end =
    sub_ℕ (end.tv_sec * 1000000 + end.tv_usec) (begin.tv_sec * 1000000 + begin.tv_usec)

-- `MyTimer::~MyTimer`, at that time: what it prints, if it does.
unfoldable pub destroy : Timeval → MyTimer → Option (Outcome ℤ)
unfolding elapsed
destroy now t = elim t.flag [
  | true ↦ none
  | false ↦ elim t.begin_time [
    | none ↦ some (fault Fault.undefined)
    | some begin ↦ some (ok (elapsed begin now))
  ]
]

pub data Call : Type 0 where
  started stopped : Timeval → Call

unfoldable pub run : List Call → MyTimer → MyTimer
unfolding start stop
run [] t = t
run (started now ∷ calls) t = run calls (start now t)
run (stopped now ∷ calls) t = run calls (stop now t)

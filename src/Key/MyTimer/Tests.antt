-- ===== src/Key/MyTimer/Tests.antt =====
-- A timer of src/key/mytimer.cc that is started and stopped two seconds later.
use serach_engine.Base.{◌≡◌, Fault, ok, fault, List, [], ◌∷◌}
use serach_engine.Base.Int.{pos}
use serach_engine.Key.MyTimer.Totals.{run-get_time}
use serach_engine.Key.MyTimer.{Timeval, Call, started, stopped, init, init_num, run, get_time}

abbrev before : Timeval
before = record { tv_sec = 1; tv_usec = 0 }

abbrev after : Timeval
after = record { tv_sec = 3; tv_usec = 0 }

abbrev calls : List Call
calls = started before ∷ stopped after ∷ []

run-get_time_example :
    (get_time (run calls (init_num (pos 1))) ≡ ok (pos 0))
    × (get_time (run calls (init before)) ≡ fault Fault.undefined)
run-get_time_example = run-get_time calls (pos 1) before

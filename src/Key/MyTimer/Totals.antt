-- ===== src/Key/MyTimer/Totals.antt =====
-- What `MyTimer` of src/key/mytimer.cc measures.
use serach_engine.Base.{◌≡◌, refl, Fault, ok, fault, List, [], ◌∷◌}
use serach_engine.Base.Int.{ℤ, pos}
use serach_engine.Key.MyTimer.{
  Timeval, MyTimer, Call, started, stopped, init, init_num, run, get_time,
}

total_time-run : (calls : List Call) (t : MyTimer) → (run calls t).total_time ≡ t.total_time
unfolding run
total_time-run [] t = refl
total_time-run (started now ∷ calls) t = total_time-run calls _
total_time-run (stopped now ∷ calls) t = total_time-run calls _

-- x
pub run-get_time :
    (calls : List Call) (num : ℤ) (now : Timeval)
    → (get_time (run calls (init_num num)) ≡ ok (pos 0))
      × (get_time (run calls (init now)) ≡ fault Fault.undefined)
unfolding get_time init init_num
run-get_time calls num now = (
  rw (total_time-run calls (init_num num), get_time) refl,
  rw (total_time-run calls (init now), get_time) refl,
)

-- ===== src/Threading/Program/Main.antt =====
-- The main thread of a program does not touch the code of the threads, nor what they write.
use fredlib.Base.{ℕ, ◌≡◌, refl, Bool, true, false, Option, none, some, List, [], ◌∷◌, if◌then◌else◌}
use fredlib.Threading.SyncPoint
use fredlib.Threading.FanInPoint
use fredlib.Threading.PausePoint
use fredlib.Threading.Program.{
  MainOp, starts, joins, pauses, resumes, asks_stop, waits, main_syncs, sets_threadnum, adds_thread,
  System, main_goes, sync_section, all_over, pause_main, resume_main, wait_section, main_section,
  main_step,
}

-- What a step of the main thread leaves as it is, if it is made.
abbrev pub Same : System → Option System → Type 0
Same s none = Unit
Same s (some t) = (t.code ≡ s.code) × (t.result ≡ s.result) × (t.arg ≡ s.arg)

module _ (s : System) where
  main_section-Same : (me : ℕ) (op : MainOp) (r : List MainOp) → Same s (main_section op r me s)
  unfolding main_section pause_main resume_main wait_section sync_section
  main_section-Same me (starts k) r = (refl, refl, refl)
  main_section-Same me joins r = either (all_over s.started s.code)
    where
      either : (b : Bool) → Same s (if b then some (main_goes r s) else none)
      either true = (refl, refl, refl)
      either false = tt
  main_section-Same me pauses r = at s.control.pause_point.main
    where
      at : (m : PausePoint.Main) → Same s (pause_main (main_goes r s) s m)
      at PausePoint.free = (refl, refl, refl)
      at PausePoint.pausing_woken = (refl, refl, refl)
      at PausePoint.holding = (refl, refl, refl)
      at PausePoint.pausing_asleep = tt
      at PausePoint.resuming_asleep = tt
      at PausePoint.resuming_woken = tt
  main_section-Same me resumes r = at s.control.pause_point.main
    where
      at : (m : PausePoint.Main) → Same s (resume_main (main_goes r s) s m)
      at PausePoint.free = (refl, refl, refl)
      at PausePoint.resuming_woken = (refl, refl, refl)
      at PausePoint.holding = (refl, refl, refl)
      at PausePoint.pausing_asleep = tt
      at PausePoint.resuming_asleep = tt
      at PausePoint.pausing_woken = tt
  main_section-Same me asks_stop r = (refl, refl, refl)
  main_section-Same me waits r = at (s.control.fan_in_point.waiter me)
    where
      at : (w : FanInPoint.Waiter) → Same s (wait_section me (main_goes r) s w)
      at FanInPoint.outside = (refl, refl, refl)
      at FanInPoint.asleep = tt
      at FanInPoint.woken = (refl, refl, refl)
      at FanInPoint.returned = (refl, refl, refl)
  main_section-Same me main_syncs r = at (s.control.sync_point.pc me)
    where
      at : (p : SyncPoint.Pc) → Same s (sync_section me (main_goes r) s p)
      at SyncPoint.outside = (refl, refl, refl)
      at SyncPoint.asleep = tt
      at SyncPoint.woken = (refl, refl, refl)
      at SyncPoint.passed = (refl, refl, refl)
  main_section-Same me (sets_threadnum k) r = (refl, refl, refl)
  main_section-Same me (adds_thread k) r = (refl, refl, refl)

  pub main_step-Same : (me : ℕ) (l : List MainOp) → Same s (main_step me s l)
  unfolding main_step
  main_step-Same me [] = tt
  main_step-Same me (op ∷ r) = main_section-Same me op r

-- ===== src/Threading/Program/MainMoves.antt =====
-- The sections of the main thread of a program move its control points by their own steps.
use fredlib.Base.{
  ℕ, ◌+◌, ◌≤◌, ◌≡◌, refl, ap, Bool, true, false, none, some, List, ◌∷◌, if◌then◌else◌, arith,
}
use fredlib.Threading.SyncPoint
use fredlib.Threading.FanInPoint
use fredlib.Threading.PausePoint
use fredlib.Threading.ThreadControl
use fredlib.Threading.ThreadControl.{ThreadControl}
use fredlib.Threading.Program.{
  MainOp, starts, joins, pauses, resumes, asks_stop, waits, main_syncs, sets_threadnum, adds_thread,
  System, main_goes, all_over, pause_main, resume_main, wait_section, main_section,
}
use fredlib.Threading.Program.Points.{
  to_start, Inv, Keeps, pauses-Inv, fans-Inv, syncs-Inv, sync_section-Keeps,
}

module _ (n : ℕ) (c : ThreadControl) (s : System) (inv : Inv n c s) where
  -- The main thread goes on.
  main_goes-Inv :
      (op : MainOp) (r : List MainOp) (k : ℕ)
      → s.main_code ≡ op ∷ r
      → s.started + k + to_start r ≤ n
      → Inv n c (main_goes r (record s { started = s.started + k }))
  main_goes-Inv op r k e fits = record {
    pausing = inv.pausing;
    fanning = inv.fanning;
    room = fits;
    parked = inv.parked;
    once = inv.once;
  }

  next-Inv :
      (op : MainOp) (r : List MainOp)
      → s.main_code ≡ op ∷ r
      → to_start (op ∷ r) ≡ to_start r
      → Inv n c (main_goes r s)
  next-Inv op r e same = record {
    pausing = inv.pausing;
    fanning = inv.fanning;
    room = omega (arith, inv.room, ap to_start e, same);
    parked = inv.parked;
    once = inv.once;
  }

  request_stop-Inv : Inv n c (record s { control = ThreadControl.request_stop s.control })
  request_stop-Inv = record {
    pausing = inv.pausing;
    fanning = inv.fanning;
    room = inv.room;
    parked = inv.parked;
    once = inv.once;
  }

  pause_main-Keeps :
      (next : System) (m : PausePoint.Main)
      → s.control.pause_point.main ≡ m
      → Inv n c next
      → Keeps n c (pause_main next s m)
  unfolding pause_main PausePoint.pause PausePoint.pause_test
  pause_main-Keeps next PausePoint.free e done =
      pauses-Inv n c s inv PausePoint.pause (PausePoint.pauses e) (λ j. refl)
  pause_main-Keeps next PausePoint.pausing_woken e done =
      pauses-Inv n c s inv PausePoint.pause_test (PausePoint.pause_tests e) (λ j. refl)
  pause_main-Keeps next PausePoint.holding e done = done
  pause_main-Keeps next PausePoint.pausing_asleep e done = tt
  pause_main-Keeps next PausePoint.resuming_asleep e done = tt
  pause_main-Keeps next PausePoint.resuming_woken e done = tt

  resume_main-Keeps :
      (next : System) (m : PausePoint.Main)
      → s.control.pause_point.main ≡ m
      → Inv n c next
      → Keeps n c (resume_main next s m)
  unfolding resume_main PausePoint.resume PausePoint.resume_test PausePoint.notify_pause
  resume_main-Keeps next PausePoint.holding e done =
      pauses-Inv n c s inv PausePoint.resume (PausePoint.resumes e) (λ j. ground arith)
  resume_main-Keeps next PausePoint.resuming_woken e done =
      pauses-Inv n c s inv PausePoint.resume_test (PausePoint.resume_tests e) (λ j. refl)
  resume_main-Keeps next PausePoint.free e done = done
  resume_main-Keeps next PausePoint.resuming_asleep e done = tt
  resume_main-Keeps next PausePoint.pausing_asleep e done = tt
  resume_main-Keeps next PausePoint.pausing_woken e done = tt

module _ (n : ℕ) (c : ThreadControl) (s : System) (inv : Inv n c s) where
  wait_section-Keeps :
      (i : ℕ) (op : MainOp) (r : List MainOp)
      → s.main_code ≡ op ∷ r
      → to_start (op ∷ r) ≡ to_start r
      → (w : FanInPoint.Waiter) → s.control.fan_in_point.waiter i ≡ w
      → Keeps n c (wait_section i (main_goes r) s w)
  unfolding wait_section FanInPoint.wait
  wait_section-Keeps i op r e same FanInPoint.outside q =
      fans-Inv n c s inv (FanInPoint.wait i) (FanInPoint.waits i q) (λ j. ground arith)
  wait_section-Keeps i op r e same FanInPoint.asleep q = tt
  wait_section-Keeps i op r e same FanInPoint.woken q =
      fans-Inv n c s inv (FanInPoint.wait i) (FanInPoint.tests i q) (λ j. ground arith)
  wait_section-Keeps i op r e same FanInPoint.returned q =
      next-Inv n c _
        (fans-Inv n c s inv (FanInPoint.waiter_to i FanInPoint.outside) (FanInPoint.leaves i q)
          (λ j. refl))
        op r e same

  pub main_section-Keeps :
      (me : ℕ) (op : MainOp) (r : List MainOp)
      → s.main_code ≡ op ∷ r
      → Keeps n c (main_section op r me s)
  unfolding main_section to_start
  main_section-Keeps me (starts k) r e =
      main_goes-Inv n c s inv (starts k) r k e (omega (arith, inv.room, ap to_start e))
  main_section-Keeps me joins r e =
      joins-Keeps (all_over s.started s.code) (next-Inv n c s inv joins r e refl)
    where
      joins-Keeps :
          (b : Bool)
          → Inv n c (main_goes r s)
          → Keeps n c (if b then some (main_goes r s) else none)
      joins-Keeps true done = done
      joins-Keeps false done = tt
  main_section-Keeps me pauses r e =
      pause_main-Keeps n c s inv (main_goes r s) s.control.pause_point.main refl
        (next-Inv n c s inv pauses r e refl)
  main_section-Keeps me resumes r e =
      resume_main-Keeps n c s inv (main_goes r s) s.control.pause_point.main refl
        (next-Inv n c s inv resumes r e refl)
  main_section-Keeps me asks_stop r e =
      request_stop-Inv n c _ (next-Inv n c s inv asks_stop r e refl)
  main_section-Keeps me waits r e =
      wait_section-Keeps me waits r e refl (s.control.fan_in_point.waiter me) refl
  main_section-Keeps me main_syncs r e =
      sync_section-Keeps n c s inv me (main_goes r) (s.control.sync_point.pc me)
        (next-Inv n c s inv main_syncs r e refl)
  main_section-Keeps me (sets_threadnum k) r e =
      syncs-Inv n c _ (next-Inv n c s inv (sets_threadnum k) r e refl) (SyncPoint.set_threadnum k)
  main_section-Keeps me (adds_thread k) r e =
      syncs-Inv n c _ (next-Inv n c s inv (adds_thread k) r e refl) (SyncPoint.add_thread k)

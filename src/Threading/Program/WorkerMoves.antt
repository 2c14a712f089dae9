-- ===== src/Threading/Program/WorkerMoves.antt =====
-- The sections of the threads of a program move its control points by their own steps.
use mathlib.Core.Bool.{false≢true}
use fredlib.Base.{
  ℕ, ◌<◌, ◌≤◌, ◌≡◌, refl, sym, ap, ◌∙◌, Bool, true, false, List, ◌∷◌, if◌then◌else◌, arith,
  Bool-cases, inl, inr,
}
use fredlib.Threading.Threads.{bit}
use fredlib.Threading.PausePoint
use fredlib.Threading.PausePoint.Invariant.{is_parked}
use fredlib.Threading.ThreadControl.{ThreadControl}
use fredlib.Threading.Program.{
  WorkerOp, syncs, asks_pause, is_done, until_stop, pause_loop, loop_test, sleeps, writes_result,
  writes_arg, System, goes, pause_section, worker_section,
}
use fredlib.Threading.Program.Points.{
  in_pause, dones, Inv, Keeps, goes-Inv, asks-Inv, rechecks-Inv, done-Inv, sync_section-Keeps,
}

-- A thread that finds the flag clear runs.
asks-runs :
    (i : ℕ) (p : PausePoint.PausePoint)
    → p.worker i ≡ PausePoint.running
    → p.pause ≡ false
    → is_parked ((PausePoint.pause_if_required i p).worker i) ≡ false
unfolding PausePoint.pause_if_required
asks-runs i p w clear = ground arith

rechecks-runs :
    (i : ℕ) (p : PausePoint.PausePoint)
    → p.pause ≡ false
    → is_parked ((PausePoint.recheck i p).worker i) ≡ false
unfolding PausePoint.recheck PausePoint.notify_paused
rechecks-runs i p clear = ground arith

-- The two ways to go on after a section of `pauseIfRequred`.
either-Inv :
    (n : ℕ) (c : ThreadControl) (s : System) (i : ℕ) (r : List WorkerOp) (b : Bool)
    → Inv n c s
    → (b ≡ false → is_parked (s.control.pause_point.worker i) ≡ false)
    → dones r ≤ bit (s.control.fan_in_point.working i)
    → Inv n c (if b then s else goes i r s)
either-Inv n c s i r true inv runs few = inv
either-Inv n c s i r false inv runs few = goes-Inv n c s inv i r (runs refl) few

module _ (n : ℕ) (c : ThreadControl) (s : System) (inv : Inv n c s) where
  pause_section-Keeps :
      (i : ℕ) (r : List WorkerOp)
      → i < n
      → in_pause (s.code i) ≡ true
      → dones r ≤ bit (s.control.fan_in_point.working i)
      → (w : PausePoint.Worker) → s.control.pause_point.worker i ≡ w
      → Keeps n c (pause_section i (goes i r) s w)
  unfolding pause_section
  pause_section-Keeps i r lt p few PausePoint.asleep w = tt
  pause_section-Keeps i r lt p few PausePoint.running w =
      either-Inv n c _ i r s.control.pause_point.pause (asks-Inv n c s inv i lt w p)
        (asks-runs i s.control.pause_point w) few
  pause_section-Keeps i r lt p few PausePoint.woken w =
      either-Inv n c _ i r s.control.pause_point.pause (rechecks-Inv n c s inv i lt w)
        (rechecks-runs i s.control.pause_point) few

  -- A thread that is not in `pauseIfRequred` is not parked.
  awake : (i : ℕ) → in_pause (s.code i) ≡ false → is_parked (s.control.pause_point.worker i) ≡ false
  awake i out = elim (Bool-cases (is_parked (s.control.pause_point.worker i))) [
    | inl q ↦ absurd (false≢true (sym out ∙ inv.parked i q))
    | inr q ↦ q
  ]

  -- A thread goes on to `r`, from a statement in which it is not parked.
  on-Inv :
      (i : ℕ) (op : WorkerOp) (r r' : List WorkerOp)
      → s.code i ≡ op ∷ r
      → in_pause (op ∷ r) ≡ false
      → dones r' ≤ dones (op ∷ r)
      → Inv n c (goes i r' s)
  on-Inv i op r r' e out few =
      goes-Inv n c s inv i r' (awake i (ap in_pause e ∙ out))
        (omega (arith, few, ap dones e, inv.once i))

  writes-Inv : (b : Bool) (k : ℕ) → Inv n c (record s { result = b; arg = k })
  writes-Inv b k = record {
    pausing = inv.pausing;
    fanning = inv.fanning;
    room = inv.room;
    parked = inv.parked;
    once = inv.once;
  }

if-Inv :
    (n : ℕ) (c : ThreadControl) (b : Bool) {s t : System}
    → Inv n c s
    → Inv n c t
    → Inv n c (if b then s else t)
if-Inv n c true i j = i
if-Inv n c false i j = j

loop_dones :
    (b : Bool) (r : List WorkerOp) → dones (if b then r else pause_loop ∷ r) ≤ dones (loop_test ∷ r)
unfolding dones
loop_dones true r = omega arith
loop_dones false r = omega arith

module _ (n : ℕ) (c : ThreadControl) (s : System) (inv : Inv n c s) where
  pub worker_section-Keeps :
      (i : ℕ)
      → i < n
      → (op : WorkerOp) (r : List WorkerOp) → s.code i ≡ op ∷ r
      → Keeps n c (worker_section op r i s)
  unfolding worker_section dones
  worker_section-Keeps i lt syncs r e =
      sync_section-Keeps n c s inv i (goes i r) (s.control.sync_point.pc i)
        (on-Inv n c s inv i syncs r r e refl (omega arith))
  worker_section-Keeps i lt asks_pause r e =
      pause_section-Keeps n c s inv i r lt (ap in_pause e) (omega (arith, ap dones e, inv.once i))
        (s.control.pause_point.worker i) refl
  worker_section-Keeps i lt is_done r e = done-Inv n c s inv i r lt e
  worker_section-Keeps i lt until_stop r e =
      if-Inv n c s.control.stopper (on-Inv n c s inv i until_stop r r e refl (omega arith)) inv
  worker_section-Keeps i lt pause_loop r e =
      pause_section-Keeps n c s inv i (loop_test ∷ r) lt (ap in_pause e)
        (omega (arith, ap dones e, inv.once i)) (s.control.pause_point.worker i) refl
  worker_section-Keeps i lt loop_test r e =
      on-Inv n c s inv i loop_test r _ e refl (loop_dones s.control.stopper r)
  worker_section-Keeps i lt sleeps r e = on-Inv n c s inv i sleeps r r e refl (omega arith)
  worker_section-Keeps i lt (writes_result b) r e =
      writes-Inv n c _ (on-Inv n c s inv i (writes_result b) r r e refl (omega arith)) b s.arg
  worker_section-Keeps i lt (writes_arg k) r e =
      writes-Inv n c _ (on-Inv n c s inv i (writes_arg k) r r e refl (omega arith)) s.result k

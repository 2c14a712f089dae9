-- ===== src/Threading/Program/Invariant.antt =====
-- The invariant of the control points in every state that a program reaches.
use mathlib.Core.Bool.{false≢true}
use fredlib.Base.{ℕ, ◌<◌, ◌≤◌, ◌≡◌, refl, sym, ap, ◌∙◌, subst, Bool, true, List, [], ◌∷◌, arith}
use fredlib.Threading.Threads.{at_thread, bit}
use fredlib.Threading.SyncPoint
use fredlib.Threading.FanInPoint
use fredlib.Threading.PausePoint
use fredlib.Threading.PausePoint.Invariant.{is_parked}
use fredlib.Threading.ThreadControl.{ThreadControl}
use fredlib.Threading.Program.{
  WorkerOp, MainOp, System, launch, worker_step, main_step, Step, works, main_works, sync_stirs,
  fan_stirs, pause_stirs, main_stirs, Reach, here, later,
}
use fredlib.Threading.Program.Points.{dones, to_start, Inv, Keeps, pauses-Inv, fans-Inv, syncs-Inv}
use fredlib.Threading.Program.WorkerMoves.{worker_section-Keeps}
use fredlib.Threading.Program.MainMoves.{main_section-Keeps}

module _ (n : ℕ) (c : ThreadControl) (s : System) (inv : Inv n c s) where
  worker_step-Keeps :
      (i : ℕ) → i < n → (l : List WorkerOp) → s.code i ≡ l → Keeps n c (worker_step i s l)
  unfolding worker_step
  worker_step-Keeps i lt [] e = tt
  worker_step-Keeps i lt (op ∷ r) e = worker_section-Keeps n c s inv i lt op r e

  main_step-Keeps : (me : ℕ) (l : List MainOp) → s.main_code ≡ l → Keeps n c (main_step me s l)
  unfolding main_step
  main_step-Keeps me [] e = tt
  main_step-Keeps me (op ∷ r) e = main_section-Keeps n c s inv me op r e

pub Step-Inv :
    (n : ℕ) (c : ThreadControl) (me : ℕ) {s t : System} → Step me s t → Inv n c s → Inv n c t
unfolding PausePoint.notify_paused
Step-Inv n c me {s} (works i lt e) inv =
    subst (Keeps n c) e (worker_step-Keeps n c s inv i (omega (arith, inv.room)) (s.code i) refl)
Step-Inv n c me {s} (main_works e) inv =
    subst (Keeps n c) e (main_step-Keeps n c s inv me s.main_code refl)
Step-Inv n c me {s} (sync_stirs i w e) inv =
    subst (Inv n c) (sym e) (syncs-Inv n c s inv (SyncPoint.goes_to i SyncPoint.woken))
Step-Inv n c me {s} (fan_stirs i w e) inv = subst (Inv n c) (sym e) (
    fans-Inv n c s inv (FanInPoint.waiter_to i FanInPoint.woken) (FanInPoint.wakes i w) (λ j. refl))
Step-Inv n c me {s} (pause_stirs i lt w e) inv = subst (Inv n c) (sym e) (
    pauses-Inv n c s inv (λ p. record p { worker = at_thread i PausePoint.woken p.worker })
      (PausePoint.stirs i (omega (arith, inv.room)) w) (λ j. ground (arith, ap is_parked w)))
Step-Inv n c me {s} (main_stirs e) inv =
    subst (Inv n c) (sym e)
      (pauses-Inv n c s inv PausePoint.notify_paused PausePoint.main_stirs (λ j. refl))

pub launch-Inv :
    (n : ℕ) (c : ThreadControl) (body : List WorkerOp) (main_body : List MainOp) (result : Bool)
    (arg : ℕ)
    → to_start main_body ≤ n
    → dones body ≤ 1
    → ((i : ℕ) → c.fan_in_point.working i ≡ true)
    → ((i : ℕ) → c.pause_point.worker i ≡ PausePoint.running)
    → Inv n c (launch c body main_body result arg)
launch-Inv n c body main_body result arg fits few work run = record {
  pausing = PausePoint.here;
  fanning = FanInPoint.here;
  room = omega (arith, fits);
  parked = λ i q. absurd (false≢true (ap is_parked (sym (run i)) ∙ q));
  once = λ i. omega (arith, few, ap bit (work i));
}

pub Reach-Inv :
    (n : ℕ) (c : ThreadControl) (me : ℕ) {s t : System} → Reach me s t → Inv n c s → Inv n c t
Reach-Inv n c me here inv = inv
Reach-Inv n c me (later r st) inv = Step-Inv n c me st (Reach-Inv n c me r inv)

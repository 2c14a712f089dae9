-- ===== src/Threading/Program/Outcomes.antt =====
-- What the calls of `pause` and of `wait` guarantee in every program of include/threading.hpp's
-- control points.
use mathlib.Core.Bool.{false≢true}
use fredlib.Base.{ℕ, ◌<◌, ◌≤◌, ◌≡◌, ◌≢◌, refl, sym, ap, ◌∙◌, Bool, true, List, [], arith}
use fredlib.Base.Int.{pos}
use fredlib.Threading.Threads.{bit}
use fredlib.Threading.FanInPoint
use fredlib.Threading.FanInPoint.Gate
use fredlib.Threading.PausePoint
use fredlib.Threading.PausePoint.Invariant.{is_parked}
use fredlib.Threading.PausePoint.Handshake
use fredlib.Threading.ThreadControl.{new_thread_control}
use fredlib.Threading.Program.{WorkerOp, MainOp, System, launch, Reach}
use fredlib.Threading.Program.Over.{Reach-append, Reach-over}
use fredlib.Threading.Program.Points.{in_pause, dones, to_start, Inv}
use fredlib.Threading.Program.Invariant.{launch-Inv, Reach-Inv}

-- A program for `n` threads, each of which calls `done` once at most, and its control.
pub record Program (n : ℕ) : Type 0 where
  pub body : List WorkerOp
  pub main_body : List MainOp
  pub result : Bool
  pub arg : ℕ
  pub fits : to_start main_body ≤ n
  pub one_done : dones body ≤ 1

-- The program under a `ThreadControl` whose points expect `n` threads.
abbrev pub begins : {n : ℕ} → Program n → System
begins {n} p = launch (new_thread_control (pos n)) p.body p.main_body p.result p.arg

begins-Inv : {n : ℕ} (p : Program n) → Inv n (new_thread_control (pos n)) (begins p)
begins-Inv {n} p =
    launch-Inv n (new_thread_control (pos n)) p.body p.main_body p.result p.arg p.fits p.one_done
      (λ i. refl) (λ i. refl)

pub Program-Inv :
    {n : ℕ} (p : Program n) (me : ℕ) {s : System}
    → Reach me (begins p) s
    → Inv n (new_thread_control (pos n)) s
Program-Inv {n} p me r = Reach-Inv n (new_thread_control (pos n)) me r (begins-Inv p)

-- In every state that a program under a `ThreadControl` for its `n` threads reaches, where no more
-- than `n` threads are started and none calls `done` twice: when `pause` has returned, every
-- thread `i < n` is in a call of `pauseIfRequred`.
pub pause-catches :
    {n : ℕ} (p : Program n) (me : ℕ) {s : System}
    → Reach me (begins p) s
    → s.control.pause_point.main ≡ PausePoint.holding
    → (i : ℕ) → i < n
    → in_pause (s.code i) ≡ true
pause-catches p me {s} r e i lt =
    let inv = Program-Inv p me r in
    inv.parked i
      (seen (s.control.pause_point.worker i) (Handshake.pause-holds inv.pausing e i lt).1)
  where
    seen : (w : PausePoint.Worker) → w ≢ PausePoint.running → is_parked w ≡ true
    seen PausePoint.running h = absurd (h refl)
    seen PausePoint.asleep h = refl
    seen PausePoint.woken h = refl

-- In every state that a program under a `ThreadControl` for its `n` threads reaches, where no more
-- than `n` threads are started and none calls `done` twice: when the wait of the main thread has
-- returned, no thread `i < n` has a call of `done` before it.
pub wait-follows_done :
    {n : ℕ} (p : Program n) (me : ℕ) {s : System}
    → Reach me (begins p) s
    → s.control.fan_in_point.waiter me ≡ FanInPoint.returned
    → (i : ℕ) → i < n
    → dones (s.code i) ≡ 0
wait-follows_done p me {s} r e i lt =
    let inv = Program-Inv p me r in
    let gone = Gate.wait-all_done inv.fanning me e i lt in omega (arith, inv.once i, ap bit gone)

-- Once one of the `n` threads that a `ThreadControl` expects has ended, in a state that a program
-- for it reaches, `pause` has not returned in any state that the program reaches from there.
pub pause-missed :
    {n : ℕ} (p : Program n) (me : ℕ) {s t : System}
    → Reach me (begins p) s
    → (i : ℕ) → i < n
    → s.code i ≡ []
    → Reach me s t
    → t.control.pause_point.main ≢ PausePoint.holding
pause-missed p me r i lt over more e = false≢true (
    ap in_pause (sym (Reach-over me more i over)) ∙ pause-catches p me (Reach-append r more) e i lt)

-- ===== src/Threading/PausePoint/Handshake.antt =====
-- The handshake of `pause` and `resume` of include/threading.hpp's `PausePoint` with `n` workers.
use mathlib.Core.Bool.{false≢true}
use fredlib.Base.{ℕ, ◌<◌, ◌≡◌, refl, sym, ap, ◌∙◌, ◌≢◌, subst, true, false, arith}
use fredlib.Base.Int.{pos}
use fredlib.Threading.Threads.{how_many, how_many-every, how_many-zero, how_many-none, how_many-all}
use fredlib.Threading.PausePoint.Invariant.{is_parked, MainFits, Inv, Reach-Inv}
use fredlib.Threading.PausePoint.{
  Worker, running, asleep, woken, free, pausing_asleep, holding, resuming_asleep, PausePoint,
  new_pause_point, recheck, Reach,
}

parked_of : (w : Worker) → w ≢ running → is_parked w ≡ true
parked_of running h = absurd (h refl)
parked_of asleep h = refl
parked_of woken h = refl

pub unparked : (w : Worker) → is_parked w ≡ false → w ≡ running
unparked running p = refl
unparked asleep p = cc
unparked woken p = cc

pub Inv-holds :
    {n : ℕ} {s : PausePoint}
    → Inv n s
    → s.main ≡ holding
    → (i : ℕ) → i < n
    → (s.pause ≡ true) × (s.worker i ≢ running)
Inv-holds {n} {s} inv e i lt =
    let (set, full) = subst (MainFits n (how_many is_parked n s.worker) s.pause) e inv.main_fits in
    (set, λ q. false≢true (sym (ap is_parked q) ∙ how_many-all is_parked n s.worker i full lt))

-- In every state that `n` workers and a main thread reach from a new `PausePoint` of count `n`:
-- when `pause` has returned, the pause flag is set and no worker `i < n` runs; each is parked in
-- `pauseIfRequred`.
pub pause-holds :
    {n : ℕ} {s : PausePoint}
    → Reach n (new_pause_point (pos n)) s
    → s.main ≡ holding
    → (i : ℕ) → i < n
    → (s.pause ≡ true) × (s.worker i ≢ running)
pause-holds r = Inv-holds (Reach-Inv r)

-- In every state that `n` workers and a main thread reach from a new `PausePoint` of count `n`:
-- before the first `pause` and whenever `resume` has returned, the pause flag is clear and every
-- worker `i < n` runs.
pub resume-frees :
    {n : ℕ} {s : PausePoint}
    → Reach n (new_pause_point (pos n)) s
    → s.main ≡ free
    → (i : ℕ) → i < n
    → (s.pause ≡ false) × (s.worker i ≡ running)
resume-frees {n} {s} r e i lt =
    let inv = Reach-Inv r in
    let (clear, empty) =
      subst (MainFits n (how_many is_parked n s.worker) s.pause) e inv.main_fits in
    (clear, unparked (s.worker i) (how_many-zero is_parked n s.worker i empty lt))

-- In every state that `n` workers and a main thread reach from a new `PausePoint` of count `n`:
-- while the pause flag is clear no worker `i < n` sleeps, and after the test that follows a
-- wake-up it runs. The wake-up of `resume` reaches every worker.
pub parked-leaves :
    {n : ℕ} {s : PausePoint}
    → Reach n (new_pause_point (pos n)) s
    → s.pause ≡ false
    → (i : ℕ) → i < n
    → (s.worker i ≢ asleep) × ((recheck i s).worker i ≡ running)
unfolding recheck
parked-leaves {n} {s} r clear i lt =
    (λ e. false≢true (sym clear ∙ (Reach-Inv r).awake i lt e), ground arith)

-- In every state that `n` workers and a main thread reach from a new `PausePoint` of count `n` and
-- in which no worker runs: the main thread does not sleep in `pause`.
pub pause-wakes :
    {n : ℕ} {s : PausePoint}
    → Reach n (new_pause_point (pos n)) s
    → ((i : ℕ) → i < n → s.worker i ≢ running)
    → s.main ≢ pausing_asleep
pause-wakes {n} {s} r busy e =
    (subst (MainFits n (how_many is_parked n s.worker) s.pause) e (Reach-Inv r).main_fits).1
      (how_many-every is_parked n s.worker (λ i lt. parked_of (s.worker i) (busy i lt)))

-- In every state that `n` workers and a main thread reach from a new `PausePoint` of count `n` and
-- in which every worker runs: the main thread does not sleep in `resume`.
pub resume-wakes :
    {n : ℕ} {s : PausePoint}
    → Reach n (new_pause_point (pos n)) s
    → ((i : ℕ) → i < n → s.worker i ≡ running)
    → s.main ≢ resuming_asleep
resume-wakes {n} {s} r idle e =
    (subst (MainFits n (how_many is_parked n s.worker) s.pause) e (Reach-Inv r).main_fits).1
      (how_many-none is_parked n s.worker (λ i lt. ap is_parked (idle i lt)))

-- ===== src/Threading/ThreadPool/Growing/Counts.antt =====
-- The counts of include/threading.hpp's `GenericThreadPool` while threads are added.
use fredlib.Base.{
  ℕ, suc, ◌<◌, ◌≡◌, refl, sym, ap, ◌∙◌, Bool, true, false, arith, Bool-cases, inl, inr,
}
use fredlib.Base.Int.{ℤ, pos, ◌+ℤ◌, ◌-ℤ◌, -ℤ_pos, +ℤ_pos}
use fredlib.Threading.Threads.{bit, at_thread, how_many, how_many-at_thread, how_many-map}
use fredlib.Threading.FanInPoint
use fredlib.Threading.FanInPoint.Gate.{is}
use fredlib.Threading.PausePoint
use fredlib.Threading.PausePoint.{Worker, running, asleep, woken}
use fredlib.Threading.PausePoint.Invariant.{is_parked}

-- The count of a `FanInPoint` with `u` children that work, of which one may not be counted.
abbrev pub owed : Bool → ℕ → ℤ
owed true u = pos u -ℤ pos 1
owed false u = pos u

abbrev pub FanCounts : (n : ℕ) → Bool → FanInPoint.FanInPoint → Type 0
FanCounts n adding f = f.expected ≡ owed adding (how_many is n f.working)

abbrev pub PauseCounts : (n c : ℕ) → PausePoint.PausePoint → Type 0
PauseCounts n c p = (p.paused ≡ pos (how_many is_parked n p.worker)) × (p.expected ≡ pos c)

owed-done : (a : Bool) (u : ℕ) → owed a (suc u) -ℤ pos 1 ≡ owed a u
owed-done true u = ap (λ x. x -ℤ pos 1) (-ℤ_pos (suc u) 1 (omega arith) ∙ ap pos (omega arith))
owed-done false u = -ℤ_pos (suc u) 1 (omega arith) ∙ ap pos (omega arith)

pub FanStep-Counts :
    {n : ℕ} {f g : FanInPoint.FanInPoint} (a : Bool)
    → FanInPoint.Step n f g
    → FanCounts n a f
    → FanCounts n a g
unfolding FanInPoint.done FanInPoint.wait FanInPoint.notify_all
FanStep-Counts {n} {f} a (FanInPoint.finishes i lt e) c =
    let step = how_many-at_thread is n f.working i false lt in
    let one : bit (f.working i) ≡ 1 = ap bit e in
    let less : how_many is n f.working ≡ suc (how_many is n (at_thread i false f.working)) =
      omega arith in
    ap (λ x. x -ℤ pos 1) (c ∙ ap (owed a) less)
    ∙ owed-done a (how_many is n (at_thread i false f.working))
FanStep-Counts {n} {f} a (FanInPoint.waits j e) c = ground (arith, c)
FanStep-Counts {n} {f} a (FanInPoint.wakes j e) c = c
FanStep-Counts {n} {f} a (FanInPoint.tests j e) c = ground (arith, c)
FanStep-Counts {n} {f} a (FanInPoint.leaves j e) c = c

-- A worker parks or leaves, or is only woken.
parked-more :
    (n : ℕ) (p : PausePoint.PausePoint) (i : ℕ)
    → i < n
    → p.worker i ≡ running
    → how_many is_parked n (at_thread i asleep p.worker) ≡ suc (how_many is_parked n p.worker)
parked-more n p i lt e =
    omega (arith, how_many-at_thread is_parked n p.worker i asleep lt, ap bit (ap is_parked e))

parked-less :
    (n : ℕ) (p : PausePoint.PausePoint) (i : ℕ)
    → i < n
    → p.worker i ≡ woken
    → how_many is_parked n p.worker ≡ suc (how_many is_parked n (at_thread i running p.worker))
parked-less n p i lt e =
    omega (arith, how_many-at_thread is_parked n p.worker i running lt, ap bit (ap is_parked e))

parked-same :
    (n : ℕ) (p : PausePoint.PausePoint) (i : ℕ) (w : Worker)
    → i < n
    → is_parked (p.worker i) ≡ true
    → is_parked w ≡ true
    → how_many is_parked n p.worker ≡ how_many is_parked n (at_thread i w p.worker)
parked-same n p i w lt e f =
    omega (arith, how_many-at_thread is_parked n p.worker i w lt, ap bit e, ap bit f)

is_parked-wake : (w : Worker) → is_parked (PausePoint.wake w) ≡ is_parked w
is_parked-wake running = refl
is_parked-wake asleep = refl
is_parked-wake woken = refl

pub PauseStep-Counts :
    {n : ℕ} {p q : PausePoint.PausePoint} (c : ℕ)
    → PausePoint.Step n p q
    → PauseCounts n c p
    → PauseCounts n c q
unfolding PausePoint.pause_if_required PausePoint.recheck PausePoint.pause PausePoint.pause_test
    PausePoint.resume PausePoint.resume_test PausePoint.notify_pause PausePoint.notify_paused
PauseStep-Counts {n} {p} c (PausePoint.asks i lt e) (k, full) = elim (Bool-cases p.pause) [
  | inl set ↦
      rw set
        (ap (λ x. x +ℤ pos 1) k ∙ +ℤ_pos _ 1 ∙ ap pos (omega (arith, parked-more n p i lt e)), full)
  | inr clear ↦ rw clear (k, full)
]
PauseStep-Counts {n} {p} c (PausePoint.stirs i lt e) (k, full) =
    (k ∙ ap pos (parked-same n p i woken lt (ap is_parked e) refl), full)
PauseStep-Counts {n} {p} c (PausePoint.tests i lt e) (k, full) = elim (Bool-cases p.pause) [
  | inl set ↦ rw set (k ∙ ap pos (parked-same n p i asleep lt (ap is_parked e) refl), full)
  | inr clear ↦ rw clear (
    ap (λ x. x -ℤ pos 1) (k ∙ ap pos (parked-less n p i lt e))
        ∙ -ℤ_pos _ 1 (omega arith)
        ∙ ap pos (omega arith),
    full,
  )
]
PauseStep-Counts {n} {p} c (PausePoint.pauses e) counts = counts
PauseStep-Counts {n} {p} c (PausePoint.resumes e) (k, full) =
    (k ∙ ap pos (sym (how_many-map is_parked n p.worker PausePoint.wake is_parked-wake)), full)
PauseStep-Counts {n} {p} c PausePoint.main_stirs counts = counts
PauseStep-Counts {n} {p} c (PausePoint.pause_tests e) counts = counts
PauseStep-Counts {n} {p} c (PausePoint.resume_tests e) counts = counts

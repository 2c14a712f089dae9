-- ===== src/Threading/ThreadPool/Ending/Stops.antt =====
-- The steps that the workers of include/threading.hpp's `GenericThreadPool` make once `stop` asks them
-- to end.
use fredlib.Base.{
  ℕ, zero, suc, ◌+◌, ◌*◌, ◌<◌, ◌≤◌, ◌≡◌, ◌≢◌, refl, ap, ◌∙◌, Bool, true, false, not, arith,
  if◌then◌else◌, ◌==◌, ==_iff, Bool-cases, inl, inr,
}
use fredlib.Threading.FanInPoint
use fredlib.Threading.FanInPoint.Gate
use fredlib.Threading.PausePoint.{Worker, running, asleep, woken}
use fredlib.Threading.ThreadPool.{
  Place, top, checking, taking, working, leaving, finished, ThreadPool, new_thread_pool, Step, asks,
  stirs, rechecks, checks, takes, ends, leaves, Reach, here, later,
}
use fredlib.Threading.ThreadPool.Invariant.{is_finished, Inv}
use fredlib.Threading.ThreadPool.Moves.{Step-Inv, Reach-Inv}
use fredlib.Threading.ThreadPool.Ending.{by_worker, worker_steps, no_pause, Asked}
use fredlib.Threading.ThreadPool.Ending.Distance.{
  distance, far, total, total-le, total-less, total-bound, distance-le, Nearer, Step-Nearer,
}

-- Each step of a worker takes one from the sum of the distances, at least.
run-total :
    {n : ℕ} {s t : ThreadPool} (run : Reach n s t)
    → Inv n s
    → Asked s
    → no_pause run ≡ true
    → Inv n t × Asked t × (worker_steps run + total n (far t) ≤ total n (far s))
unfolding no_pause worker_steps
run-total here inv asked np = (inv, asked, omega arith)
run-total {n} {s} (later {t} {u} run st) inv asked np =
    let (inv', asked', less) = run-total run inv asked (ground arith) in
    let nearer = Step-Nearer st inv' asked' (ground arith) in
    (Step-Inv st inv', nearer.asked, counted (by_worker st) nearer less)
  where
    counted :
        (b : Bool)
        → Nearer n t u b
        → worker_steps run + total n (far t) ≤ total n (far s)
        → (if b then suc (worker_steps run) else worker_steps run) + total n (far u)
          ≤ total n (far s)
    counted true nearer less =
        let (i, lt, strictly) = nearer.less refl in
        let shrunk = total-less n (far t) (far u) nearer.never i lt strictly in omega arith
    counted false nearer less = let same = total-le n (far t) (far u) nearer.never in omega arith

at_least : (n : ℕ) (f : ℕ → ℕ) (i : ℕ) → i < n → f i ≤ total n f
unfolding total
at_least zero f i lt = absurd (omega arith)
at_least (suc n) f i lt = elim (Bool-cases (i == n)) [
  | inl hit ↦ let e = ap f ((==_iff i n).0 hit) in omega arith
  | inr miss ↦ let rest = at_least n f i (ground arith) in omega arith
]

away : (p : Place) (w : Worker) → p ≢ finished → 1 ≤ distance p w
away finished w h = absurd (h refl)
away leaving w h = omega arith
away checking w h = omega arith
away top running h = omega arith
away top woken h = omega arith
away top asleep h = omega arith
away (working task) w h = omega arith
away taking w h = omega arith

-- A worker that has not finished can make a step.
can_step :
    {n : ℕ} {s : ThreadPool} (i : ℕ)
    → i < n
    → (p : Place) (w : Worker) → s.place i ≡ p
    → s.control.pause_point.worker i ≡ w
    → p ≢ finished
    → (t : ThreadPool) × (st : Step n s t) × (by_worker st ≡ true)
can_step i lt finished w e f h = absurd (h refl)
can_step i lt leaving w e f h = (_, leaves i lt e, refl)
can_step i lt checking w e f h = (_, checks i lt e, refl)
can_step i lt top running e f h = (_, asks i lt e f, refl)
can_step i lt top woken e f h = (_, rechecks i lt f, refl)
can_step i lt top asleep e f h = (_, stirs i lt f, refl)
can_step i lt (working task) w e f h = (_, ends i task lt e, refl)
can_step i lt taking w e f h = (_, takes i lt e, refl)

-- If a `GenericThreadPool` of `n` workers has reached a state in which the stop flag is set and
-- the pause flag is clear, and runs on from there without a call of `pause`, then for as long as a
-- worker `i < n` has not finished: the workers have made fewer than `5 * n` steps in that run, and
-- a worker can make one. A task that runs counts as one step.
pub stop-ends :
    {n : ℕ} {s t : ThreadPool}
    → Reach n (new_thread_pool n) s
    → Asked s
    → (run : Reach n s t) → no_pause run ≡ true
    → (i : ℕ) → i < n
    → t.place i ≢ finished
    → (worker_steps run < 5 * n) × ((u : ThreadPool) × (st : Step n t u) × (by_worker st ≡ true))
stop-ends {n} {s} {t} r asked run np i lt busy =
    let (inv, asked', less) = run-total run (Reach-Inv r) asked np in
    let bound =
      total-bound n (far s) (λ j. distance-le (s.place j) (s.control.pause_point.worker j)) in
    let most = at_least n (far t) i lt in
    let left = away (t.place i) (t.control.pause_point.worker i) busy in
    (omega arith, can_step i lt (t.place i) (t.control.pause_point.worker i) refl refl busy)

-- In every state that a `GenericThreadPool` of `n` workers reaches and in which every worker `i <
-- n` has finished: no caller of `stop` sleeps, and the wait of each returns when it tests the
-- predicate.
pub stop-returns :
    {n : ℕ} {s : ThreadPool}
    → Reach n (new_thread_pool n) s
    → ((i : ℕ) → i < n → s.place i ≡ finished)
    → (j : ℕ)
    → (s.control.fan_in_point.waiter j ≢ FanInPoint.asleep)
      × ((FanInPoint.wait j s.control.fan_in_point).waiter j ≡ FanInPoint.returned)
stop-returns r all j =
    let inv = Reach-Inv r in
    Gate.wait-returns inv.fanning (λ i lt. inv.counted i ∙ ap (λ p. not (is_finished p)) (all i lt))
      j

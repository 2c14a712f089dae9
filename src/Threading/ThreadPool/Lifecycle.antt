-- ===== src/Threading/ThreadPool/Lifecycle.antt =====
-- What the members of `GenericThreadPool` of include/threading.hpp promise.
use mathlib.Core.Bool.{false≢true}
use fredlib.Base.{ℕ, ◌<◌, ◌≡◌, ◌≢◌, refl, sym, ap, ◌∙◌, true, false, not, ◌++◌, arith}
use fredlib.Threading.FanInPoint
use fredlib.Threading.FanInPoint.Gate
use fredlib.Threading.PausePoint
use fredlib.Threading.PausePoint.Invariant.{is_parked}
use fredlib.Threading.PausePoint.Handshake
use fredlib.Threading.ThreadPool.{
  Place, top, checking, taking, working, leaving, finished, ThreadPool, new_thread_pool, Step, asks,
  stirs, rechecks, checks, takes, ends, leaves, pushes, stops, waits, wakes, waits_on, pauses,
  resumes, main_stirs, pause_tests, resume_tests, Reach, here, later, ask_pause, recheck_pause,
  push_function, stop,
}
use fredlib.Threading.ThreadPool.Invariant.{is_finished, is_stopping, Inv}
use fredlib.Threading.ThreadPool.Moves.{Step-Inv, Reach-Inv}

-- In every state that a `GenericThreadPool` of `n` workers reaches: the tasks that workers have
-- taken, in the order in which they took them, followed by the queue, are the tasks that were
-- pushed, in order. No task is lost, taken twice or overtaken.
pub tasks-in_order :
    {n : ℕ} {s : ThreadPool} → Reach n (new_thread_pool n) s → s.started ++ s.queue ≡ s.pushed
tasks-in_order r = (Reach-Inv r).in_order

finished_of : (p : Place) → is_finished p ≡ true → p ≡ finished
finished_of finished q = refl
finished_of top q = cc
finished_of checking q = cc
finished_of taking q = cc
finished_of (working t) q = cc
finished_of leaving q = cc

-- In every state that a `GenericThreadPool` of `n` workers reaches and in which the wait of some
-- call of `stop` has returned: every worker `i < n` has left its loop and called `done`, and the
-- stop flag is set if there is a worker.
pub stop-joins :
    {n : ℕ} {s : ThreadPool}
    → Reach n (new_thread_pool n) s
    → (j : ℕ) → s.control.fan_in_point.waiter j ≡ FanInPoint.returned
    → (i : ℕ) → i < n
    → (s.place i ≡ finished) × (s.control.stopper ≡ true)
stop-joins {n} {s} r j e i lt =
    let inv = Reach-Inv r in
    let gone : not (is_finished (s.place i)) ≡ false =
      sym (inv.counted i) ∙ Gate.wait-all_done inv.fanning j e i lt in
    let over : s.place i ≡ finished = finished_of (s.place i) (ground arith) in
    (over, inv.asked i (ap is_stopping over))

-- In every state that a `GenericThreadPool` of `n` workers reaches and in which `pause` has
-- returned: every worker `i < n` is at the top of its loop, so that none runs a task or takes one.
pub pause-quiets :
    {n : ℕ} {s : ThreadPool}
    → Reach n (new_thread_pool n) s
    → s.control.pause_point.main ≡ PausePoint.holding
    → (i : ℕ) → i < n
    → s.place i ≡ top
pause-quiets {n} {s} r e i lt =
    let inv = Reach-Inv r in
    inv.parked i
      (seen (s.control.pause_point.worker i) (Handshake.pause-holds inv.pausing e i lt).1)
  where
    seen : (w : PausePoint.Worker) → w ≢ PausePoint.running → is_parked w ≡ true
    seen PausePoint.running h = absurd (h refl)
    seen PausePoint.asleep h = refl
    seen PausePoint.woken h = refl

-- In every state that a `GenericThreadPool` with at least one worker reaches and in which `pause`
-- has returned and `resume` has not been called since: no wait of a call of `stop` has returned.
pub stop-paused :
    {n : ℕ} {s : ThreadPool}
    → Reach n (new_thread_pool n) s
    → 0 < n
    → s.control.pause_point.main ≡ PausePoint.holding
    → (j : ℕ) → s.control.fan_in_point.waiter j ≢ FanInPoint.returned
stop-paused {n} {s} r some e j returned =
    let over = (stop-joins r j returned 0 some).0 in
    let quiet = pause-quiets r e 0 some in false≢true (ap is_finished (sym quiet ∙ over))

-- Once all workers have finished, the tasks stay where they are.
abbrev pub Over : ℕ → ThreadPool → Type 0
Over n s = (i : ℕ) → i < n → s.place i ≡ finished

Step-Over :
    {n : ℕ} {s t : ThreadPool}
    → Step n s t
    → Inv n s
    → Over n s
    → Over n t × (t.started ≡ s.started)
unfolding ask_pause recheck_pause push_function stop
Step-Over (asks i lt e w) inv over = absurd (cc (over i lt))
Step-Over (stirs i lt w) inv over = (over, refl)
Step-Over (rechecks i lt w) inv over =
    absurd (false≢true (ap is_finished (sym (inv.parked i (ap is_parked w)) ∙ over i lt)))
Step-Over (checks i lt e) inv over = absurd (cc (over i lt))
Step-Over (takes i lt e) inv over = absurd (cc (over i lt))
Step-Over (ends i task lt e) inv over = absurd (cc (over i lt))
Step-Over (leaves i lt e) inv over = absurd (cc (over i lt))
Step-Over (pushes task) inv over = (over, refl)
Step-Over stops inv over = (over, refl)
Step-Over (waits j e) inv over = (over, refl)
Step-Over (wakes j e) inv over = (over, refl)
Step-Over (waits_on j e) inv over = (over, refl)
Step-Over (pauses e) inv over = (over, refl)
Step-Over (resumes e) inv over = (over, refl)
Step-Over main_stirs inv over = (over, refl)
Step-Over (pause_tests e) inv over = (over, refl)
Step-Over (resume_tests e) inv over = (over, refl)

pub Reach-Over :
    {n : ℕ} {s t : ThreadPool}
    → Reach n s t
    → Inv n s
    → Over n s
    → Inv n t × Over n t × (t.started ≡ s.started)
Reach-Over here inv over = (inv, over, refl)
Reach-Over (later r st) inv over =
    let (inv', over', same) = Reach-Over r inv over in
    let (over'', same') = Step-Over st inv' over' in (Step-Inv st inv', over'', same' ∙ same)

-- From a reachable state of a `GenericThreadPool` in which the wait of some call of `stop` has
-- returned, in every state that it reaches further on: no further task has been taken, and the
-- queue still holds all tasks pushed before and since that no worker had taken.
pub stop-abandons :
    {n : ℕ} {s t : ThreadPool}
    → Reach n (new_thread_pool n) s
    → (j : ℕ) → s.control.fan_in_point.waiter j ≡ FanInPoint.returned
    → Reach n s t
    → (t.started ≡ s.started) × (s.started ++ t.queue ≡ t.pushed)
stop-abandons {n} {s} {t} r j e more =
    let (inv, over, same) = Reach-Over more (Reach-Inv r) (λ i lt. (stop-joins r j e i lt).0) in
    (same, ap (λ l. l ++ t.queue) (sym same) ∙ inv.in_order)

-- ===== src/Threading/ThreadPool/Ending.antt =====
-- Runs of `GenericThreadPool` of include/threading.hpp, and the steps of its workers in them.
pub mod Distance
pub mod Stops
use mathlib.Core.Bool.{false≢true}
use fredlib.Base.{
  ℕ, zero, suc, ◌+◌, ◌*◌, ◌<◌, ◌≤◌, ◌≡◌, ◌≢◌, refl, sym, ap, ◌∙◌, Bool, true, false, not, arith,
  List, [], ◌∷◌, if◌then◌else◌, ◌==◌, ==_iff, subst, Bool-cases, inl, inr,
}
use fredlib.Threading.Threads.{at_thread}
use fredlib.Threading.FanInPoint
use fredlib.Threading.FanInPoint.Gate
use fredlib.Threading.PausePoint
use fredlib.Threading.PausePoint.{Worker, running, asleep, woken}
use fredlib.Threading.PausePoint.Handshake
use fredlib.Threading.PausePoint.Invariant.{is_parked}
use fredlib.Threading.ThreadPool.{
  Place, top, checking, taking, working, leaving, finished, ThreadPool, new_thread_pool, Step, asks,
  stirs, rechecks, checks, takes, ends, leaves, pushes, stops, waits, wakes, waits_on, pauses,
  resumes, main_stirs, pause_tests, resume_tests, Reach, here, later, ask_pause, recheck_pause,
  check_stop, take_from, take_task, end_task, leave, push_function, stop,
}
use fredlib.Threading.ThreadPool.Invariant.{is_finished, Inv}
use fredlib.Threading.ThreadPool.Moves.{Step-Inv, Reach-Inv}

-- A step of a worker's own code.
abbrev pub by_worker : {n : ℕ} {s t : ThreadPool} → Step n s t → Bool
by_worker (asks i lt e w) = true
by_worker (stirs i lt w) = true
by_worker (rechecks i lt w) = true
by_worker (checks i lt e) = true
by_worker (takes i lt e) = true
by_worker (ends i task lt e) = true
by_worker (leaves i lt e) = true
by_worker st = false

abbrev pub is_pause : {n : ℕ} {s t : ThreadPool} → Step n s t → Bool
is_pause (pauses e) = true
is_pause st = false

-- The number of the workers' steps in a run, and whether nobody calls `pause` in it.
unfoldable pub worker_steps : {n : ℕ} {s t : ThreadPool} → Reach n s t → ℕ
worker_steps here = 0
worker_steps (later r st) = if by_worker st then suc (worker_steps r) else worker_steps r

unfoldable pub no_pause : {n : ℕ} {s t : ThreadPool} → Reach n s t → Bool
no_pause here = true
no_pause (later r st) = if is_pause st then false else no_pause r

-- The workers are asked to stop and nobody pauses them.
abbrev pub Asked : ThreadPool → Type 0
Asked s = (s.control.stopper ≡ true) × (s.control.pause_point.pause ≡ false)

-- ===== src/Threading/ThreadControl/Counts.antt =====
-- The counts of the three points of include/threading.hpp's `ThreadControl`, and the calls that set them.
use fredlib.Base.{◌≡◌, refl, ap, Bool, true}
use fredlib.Base.Int.{ℤ, ◌+ℤ◌}
use fredlib.Threading.SyncPoint
use fredlib.Threading.FanInPoint
use fredlib.Threading.PausePoint
use fredlib.Threading.ThreadControl.{
  ThreadControl, new_thread_control, initialize, add_thread, set_threadnum, request_stop,
  stop_required,
}

-- A call of a member that the class declares itself, on a control whose points no thread uses yet. That
-- of `stop` counts up to its wait; `asks` is one of `stopRequired`, with its answer.
pub data Step (c : ThreadControl) : ThreadControl → Type 0 where
  initializes : (expected : ℤ) → Step c (initialize expected c)
  stops : Step c (request_stop c)
  asks : (answer : Bool) → stop_required c ≡ answer → Step c c
  adds : (num : ℤ) → Step c (add_thread num c)
  sets : (num : ℤ) → Step c (set_threadnum num c)

pub data Reach (c : ThreadControl) : ThreadControl → Type 0 where
  here : Reach c c
  later : {d e : ThreadControl} → Reach c d → Step d e → Reach c e

-- The three points expect one number of threads.
abbrev pub Agrees : ThreadControl → Type 0
Agrees c =
    (c.sync_point.expected ≡ c.pause_point.expected)
    × (c.fan_in_point.expected ≡ c.pause_point.expected)

Step-Agrees : {c d : ThreadControl} → Step c d → Agrees c → Agrees d
unfolding initialize add_thread set_threadnum SyncPoint.initialize FanInPoint.initialize
    PausePoint.initialize SyncPoint.add_thread FanInPoint.add_thread PausePoint.add_thread
    SyncPoint.set_threadnum FanInPoint.set_threadnum PausePoint.set_threadnum
Step-Agrees (initializes expected) agrees = (refl, refl)
Step-Agrees stops agrees = agrees
Step-Agrees (asks answer e) agrees = agrees
Step-Agrees (adds num) (a, b) = (ap (λ z. z +ℤ num) a, ap (λ z. z +ℤ num) b)
Step-Agrees (sets num) agrees = (refl, refl)

-- Whatever calls set them, the counts of the three points agree.
pub counts-Agrees :
    (expected : ℤ) {c : ThreadControl} → Reach (new_thread_control expected) c → Agrees c
counts-Agrees expected here = (refl, refl)
counts-Agrees expected (later r st) = Step-Agrees st (counts-Agrees expected r)

-- The stop flag, once set, is never cleared, not even by `initialize`.
Step-stopped : {c d : ThreadControl} → Step c d → stop_required c ≡ true → stop_required d ≡ true
unfolding initialize add_thread set_threadnum
Step-stopped (initializes expected) e = e
Step-stopped stops e = refl
Step-stopped (asks answer q) e = e
Step-stopped (adds num) e = e
Step-stopped (sets num) e = e

pub stop-stays : {c d : ThreadControl} → Reach c d → stop_required c ≡ true → stop_required d ≡ true
stop-stays here e = e
stop-stays (later r st) e = Step-stopped st (stop-stays r e)

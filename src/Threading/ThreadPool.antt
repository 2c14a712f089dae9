-- ===== src/Threading/ThreadPool.antt =====
-- include/threading.hpp, `class GenericThreadPool`: the queue of tasks, the workers' loop and the
-- members. The queue is the sequence that `IntrusiveSafeList` stands for; a task is a number.
pub mod Invariant
pub mod Moves
pub mod Lifecycle
pub mod Ending
pub mod Progress
pub mod Growing
pub mod Elements
pub mod OnHeap
mod Tests
use fredlib.Base.{
  ℕ, zero, suc, ◌+◌, ◌<◌, ◌≡◌, Bool, true, false, List, [], ◌∷◌, ◌++◌, if◌then◌else◌,
}
use fredlib.Base.Int.{pos}
use fredlib.Threading.Threads.{at_thread}
use fredlib.Threading.FanInPoint
use fredlib.Threading.PausePoint
use fredlib.Threading.ThreadControl
use fredlib.Threading.ThreadControl.{ThreadControl}

-- Where a worker stands in `_worker_thread`.
pub data Place : Type 0 where
  top : Place  -- about to call `pauseIfRequred`, or in it
  checking : Place  -- about to test `stopRequired`
  taking : Place  -- in `_q.pop_front(100)`
  working : ℕ → Place  -- running a task
  leaving : Place  -- behind the loop, about to call `done`
  finished : Place

-- `started` and `pushed` only record: the tasks taken from the queue, and all tasks, in order.
pub record ThreadPool : Type 0 where
  pub queue : List ℕ  -- _q
  pub control : ThreadControl  -- _tc
  pub place : ℕ → Place
  pub started : List ℕ
  pub pushed : List ℕ

-- `_add_thread`, `n` times: each call counts one thread.
unfoldable pub add_threads : ℕ → ThreadControl → ThreadControl
add_threads zero c = c
add_threads (suc n) c = add_threads n (ThreadControl.add_thread (pos 1) c)

-- The constructor, with `n` threads.
unfoldable pub new_thread_pool : ℕ → ThreadPool
unfolding add_threads
new_thread_pool n = record {
  queue = [];
  control = add_threads n (ThreadControl.new_thread_control (pos 0));
  place = λ _. top;
  started = [];
  pushed = [];
}

abbrev pub with_pause : (PausePoint.PausePoint → PausePoint.PausePoint) → ThreadPool → ThreadPool
with_pause f s = record s { control = record s.control { pause_point = f s.control.pause_point } }

abbrev pub with_fan : (FanInPoint.FanInPoint → FanInPoint.FanInPoint) → ThreadPool → ThreadPool
with_fan f s = record s { control = record s.control { fan_in_point = f s.control.fan_in_point } }

abbrev pub move : ℕ → Place → ThreadPool → ThreadPool
move i p s = record s { place = at_thread i p s.place }

-- `tc.pauseIfRequred()`, up to its wait, and from a wake-up on.
unfoldable pub ask_pause : ℕ → ThreadPool → ThreadPool
ask_pause i s =
    move i (if s.control.pause_point.pause then top else checking)
      (with_pause (PausePoint.pause_if_required i) s)

unfoldable pub recheck_pause : ℕ → ThreadPool → ThreadPool
recheck_pause i s =
    move i (if s.control.pause_point.pause then top else checking)
      (with_pause (PausePoint.recheck i) s)

-- `if (tc.stopRequired()) break;`
unfoldable pub check_stop : ℕ → ThreadPool → ThreadPool
check_stop i s = move i (if ThreadControl.stop_required s.control then leaving else taking) s

-- `_q.pop_front(100)`: a task, or, once the time is over, none.
unfoldable pub take_from : ℕ → List ℕ → ThreadPool → ThreadPool
take_from i [] s = move i top s
take_from i (task ∷ rest) s =
    move i (working task) (record s { queue = rest; started = s.started ++ task ∷ [] })

unfoldable pub take_task : ℕ → ThreadPool → ThreadPool
unfolding take_from
take_task i s = take_from i s.queue s

-- The task has returned and is deleted.
unfoldable pub end_task : ℕ → ThreadPool → ThreadPool
end_task i s = move i top s

-- `tc.done()`
unfoldable pub leave : ℕ → ThreadPool → ThreadPool
leave i s = move i finished (with_fan (FanInPoint.done i) s)

-- `push_function`
unfoldable pub push_function : ℕ → ThreadPool → ThreadPool
push_function task s = record s { queue = s.queue ++ task ∷ []; pushed = s.pushed ++ task ∷ [] }

-- `stop`, up to its call of `FanInPoint::wait`.
unfoldable pub stop : ThreadPool → ThreadPool
stop s = record s { control = ThreadControl.request_stop s.control }

-- One step: of one of `n` workers, of a caller of `push_function`, of a caller `j` of `stop`, or of
-- the one thread that calls `pause` and `resume`.
pub data Step (n : ℕ) (s : ThreadPool) : ThreadPool → Type 0 where
  asks :
      (i : ℕ)
      → i < n
      → s.place i ≡ top
      → s.control.pause_point.worker i ≡ PausePoint.running
      → Step n s (ask_pause i s)
  stirs :
      (i : ℕ)
      → i < n
      → s.control.pause_point.worker i ≡ PausePoint.asleep
      → Step n s (with_pause (λ p. record p { worker = at_thread i PausePoint.woken p.worker }) s)
  rechecks :
      (i : ℕ)
      → i < n
      → s.control.pause_point.worker i ≡ PausePoint.woken
      → Step n s (recheck_pause i s)
  checks : (i : ℕ) → i < n → s.place i ≡ checking → Step n s (check_stop i s)
  takes : (i : ℕ) → i < n → s.place i ≡ taking → Step n s (take_task i s)
  ends : (i task : ℕ) → i < n → s.place i ≡ working task → Step n s (end_task i s)
  leaves : (i : ℕ) → i < n → s.place i ≡ leaving → Step n s (leave i s)
  pushes : (task : ℕ) → Step n s (push_function task s)
  stops : Step n s (stop s)
  waits :
      (j : ℕ)
      → s.control.fan_in_point.waiter j ≡ FanInPoint.outside
      → Step n s (with_fan (FanInPoint.wait j) s)
  wakes :
      (j : ℕ)
      → s.control.fan_in_point.waiter j ≡ FanInPoint.asleep
      → Step n s (with_fan (FanInPoint.waiter_to j FanInPoint.woken) s)
  waits_on :
      (j : ℕ)
      → s.control.fan_in_point.waiter j ≡ FanInPoint.woken
      → Step n s (with_fan (FanInPoint.wait j) s)
  pauses : s.control.pause_point.main ≡ PausePoint.free → Step n s (with_pause PausePoint.pause s)
  resumes :
      s.control.pause_point.main ≡ PausePoint.holding → Step n s (with_pause PausePoint.resume s)
  main_stirs : Step n s (with_pause PausePoint.notify_paused s)
  pause_tests :
      s.control.pause_point.main ≡ PausePoint.pausing_woken
      → Step n s (with_pause PausePoint.pause_test s)
  resume_tests :
      s.control.pause_point.main ≡ PausePoint.resuming_woken
      → Step n s (with_pause PausePoint.resume_test s)

pub data Reach (n : ℕ) (s : ThreadPool) : ThreadPool → Type 0 where
  here : Reach n s s
  later : {t u : ThreadPool} → Reach n s t → Step n t u → Reach n s u

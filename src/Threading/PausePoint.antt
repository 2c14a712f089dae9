-- ===== src/Threading/PausePoint.antt =====
-- include/threading.hpp, `class PausePoint`: the object, the threads that call `pauseIfRequred` and
-- the main thread that calls `pause` and `resume` in turn. Each step is one critical section under
-- `mPauseMutex`.
pub mod Invariant
pub mod Handshake
pub mod Phases
use fredlib.Base.{ℕ, Bool, true, false, not, if◌then◌else◌, ◌≡◌, ◌<◌}
use fredlib.Base.Int.{ℤ, pos, ◌+ℤ◌, ◌-ℤ◌, eq_ℤ}
use fredlib.Threading.Threads.{at_thread}

-- Where a worker stands.
pub data Worker : Type 0 where
  running : Worker
  asleep : Worker  -- blocked in `mCvPause.wait`
  woken : Worker

-- Where the main thread stands.
pub data Main : Type 0 where
  free : Main  -- before `pause`, or after `resume` has returned
  pausing_asleep : Main  -- in `pause`, blocked in `mCvPaused.wait`
  pausing_woken : Main
  holding : Main  -- `pause` has returned
  resuming_asleep : Main  -- in `resume`, blocked in `mCvPaused.wait`
  resuming_woken : Main

pub record PausePoint : Type 0 where
  pub pause : Bool  -- mPause
  pub paused : ℤ  -- mPausedThreads
  pub expected : ℤ  -- mExpectedThreads
  pub worker : ℕ → Worker
  pub main : Main

-- The constructor.
abbrev pub new_pause_point : ℤ → PausePoint
new_pause_point expected = record {
  pause = false;
  paused = pos 0;
  expected = expected;
  worker = λ _. running;
  main = free;
}

abbrev pub wake : Worker → Worker
wake asleep = woken
wake w = w

abbrev pub wake_main : Main → Main
wake_main pausing_asleep = pausing_woken
wake_main resuming_asleep = resuming_woken
wake_main m = m

-- `mCvPause.notify_all()` and `mCvPaused.notify_all()`
unfoldable pub notify_pause : PausePoint → PausePoint
notify_pause s = record s { worker = λ i. wake (s.worker i) }

unfoldable pub notify_paused : PausePoint → PausePoint
notify_paused s = record s { main = wake_main s.main }

-- `pauseIfRequred`, by worker `i`, up to its wait: the predicate `!mPause` fails in this section.
unfoldable pub pause_if_required : ℕ → PausePoint → PausePoint
unfolding notify_paused
pause_if_required i s =
    if s.pause
    then notify_paused
        (record s { paused = s.paused +ℤ pos 1; worker = at_thread i asleep s.worker })
    else s

-- A woken worker tests the predicate, and leaves `pauseIfRequred` if it holds.
unfoldable pub recheck : ℕ → PausePoint → PausePoint
unfolding notify_paused
recheck i s =
    if not s.pause
    then notify_paused
        (record s { paused = s.paused -ℤ pos 1; worker = at_thread i running s.worker })
    else record s { worker = at_thread i asleep s.worker }

-- The test of `mPausedThreads == mExpectedThreads` in `pause`, and of `mPausedThreads == 0` in
-- `resume`.
unfoldable pub pause_test : PausePoint → PausePoint
pause_test s = record s { main = if eq_ℤ s.paused s.expected then holding else pausing_asleep }

unfoldable pub resume_test : PausePoint → PausePoint
resume_test s = record s { main = if eq_ℤ s.paused (pos 0) then free else resuming_asleep }

unfoldable pub pause : PausePoint → PausePoint
unfolding pause_test
pause s = pause_test (record s { pause = true })

unfoldable pub resume : PausePoint → PausePoint
unfolding resume_test notify_pause
resume s = resume_test (notify_pause (record s { pause = false }))

-- `initialize`, `add_thread` and `set_threadnum`
unfoldable pub initialize : ℤ → PausePoint → PausePoint
initialize expected s = record s { paused = pos 0; expected = expected }

unfoldable pub add_thread : ℤ → PausePoint → PausePoint
add_thread num s = record s { expected = s.expected +ℤ num }

unfoldable pub set_threadnum : ℤ → PausePoint → PausePoint
set_threadnum num s = record s { expected = num }

-- One step, of one of `n` workers or of the main thread.
pub data Step (n : ℕ) (s : PausePoint) : PausePoint → Type 0 where
  asks : (i : ℕ) → i < n → s.worker i ≡ running → Step n s (pause_if_required i s)
  stirs :
      (i : ℕ)
      → i < n
      → s.worker i ≡ asleep
      → Step n s (record s { worker = at_thread i woken s.worker })
  tests : (i : ℕ) → i < n → s.worker i ≡ woken → Step n s (recheck i s)
  pauses : s.main ≡ free → Step n s (pause s)
  resumes : s.main ≡ holding → Step n s (resume s)
  main_stirs : Step n s (notify_paused s)
  pause_tests : s.main ≡ pausing_woken → Step n s (pause_test s)
  resume_tests : s.main ≡ resuming_woken → Step n s (resume_test s)

pub data Reach (n : ℕ) (s : PausePoint) : PausePoint → Type 0 where
  here : Reach n s s
  later : {t u : PausePoint} → Reach n s t → Step n t u → Reach n s u

-- ===== src/Threading/ThreadPool/Tests.antt =====
-- Runs of `GenericThreadPool` of include/threading.hpp with one worker.
use fredlib.Base.{ℕ, ◌<◌, ◌≡◌, ◌≢◌, refl, true, [], ◌++◌, arith}
use fredlib.Base.Int.{◌+ℤ◌, ◌-ℤ◌}
use fredlib.Threading.FanInPoint
use fredlib.Threading.PausePoint
use fredlib.Threading.ThreadControl
use fredlib.Threading.ThreadPool.{
  top, finished, ThreadPool, Step, new_thread_pool, add_threads, with_pause, with_fan, ask_pause,
  check_stop, take_task, leave, push_function, stop, asks, checks, takes, leaves, pushes, stops,
  waits, pauses, pause_tests, Reach, here, later,
}
use fredlib.Threading.ThreadPool.Ending.{by_worker, worker_steps, no_pause, Asked}
use fredlib.Threading.ThreadPool.Ending.Stops.{stop-ends, stop-returns}
use fredlib.Threading.ThreadPool.Progress.{Going, tasks-served}
use fredlib.Threading.ThreadPool.Lifecycle.{tasks-in_order, stop-joins, pause-quiets, stop-paused}

abbrev pool : ThreadPool
pool = new_thread_pool 1

-- Two tasks are pushed; the worker takes the first.
abbrev one_taken : ThreadPool
one_taken = take_task 0 (check_stop 0 (ask_pause 0 (push_function 8 (push_function 7 pool))))

one_taken-Reach : Reach 1 pool one_taken
unfolding new_thread_pool add_threads push_function ask_pause check_stop
    PausePoint.pause_if_required ThreadControl.add_thread PausePoint.add_thread
one_taken-Reach =
    later
      (later (later (later (later here (pushes 7)) (pushes 8)) (asks 0 (omega arith) refl refl))
        (checks 0 (omega arith) refl))
      (takes 0 (omega arith) refl)

tasks-in_order_example : one_taken.started ++ one_taken.queue ≡ one_taken.pushed
tasks-in_order_example = tasks-in_order one_taken-Reach

-- The worker is asked to stop, and leaves; the caller of `stop` returns.
abbrev stopped : ThreadPool
stopped = with_fan (FanInPoint.wait 0) (leave 0 (check_stop 0 (stop (ask_pause 0 pool))))

stopped-Reach : Reach 1 pool stopped
unfolding new_thread_pool add_threads ask_pause check_stop leave stop PausePoint.pause_if_required
    ThreadControl.add_thread PausePoint.add_thread FanInPoint.done FanInPoint.notify_all
    FanInPoint.add_thread
stopped-Reach =
    later
      (later
        (later (later (later here (asks 0 (omega arith) refl refl)) stops)
          (checks 0 (omega arith) refl))
        (leaves 0 (omega arith) refl))
      (waits 0 refl)

stop-joins_example : (stopped.place 0 ≡ finished) × (stopped.control.stopper ≡ true)
unfolding new_thread_pool add_threads ask_pause check_stop leave stop PausePoint.pause_if_required
    ThreadControl.add_thread PausePoint.add_thread FanInPoint.done FanInPoint.notify_all
    FanInPoint.add_thread FanInPoint.wait ◌+ℤ◌ ◌-ℤ◌
stop-joins_example = stop-joins stopped-Reach 0 refl 0 (omega arith)

-- The main thread pauses the pool, and another one calls `stop`.
abbrev held : ThreadPool
held = with_pause PausePoint.pause_test (ask_pause 0 (with_pause PausePoint.pause pool))

held-Reach : Reach 1 pool held
unfolding new_thread_pool add_threads ask_pause PausePoint.pause PausePoint.pause_test
    PausePoint.pause_if_required PausePoint.notify_paused ThreadControl.add_thread
    PausePoint.add_thread ◌+ℤ◌
held-Reach =
    later (later (later here (pauses refl)) (asks 0 (omega arith) refl refl)) (pause_tests refl)

pause-quiets_example : held.place 0 ≡ top
unfolding new_thread_pool add_threads ask_pause PausePoint.pause PausePoint.pause_test
    PausePoint.pause_if_required PausePoint.notify_paused ThreadControl.add_thread
    PausePoint.add_thread ◌+ℤ◌
pause-quiets_example = pause-quiets held-Reach refl 0 (omega arith)

stop-paused_example :
    (with_fan (FanInPoint.wait 0) (stop held)).control.fan_in_point.waiter 0 ≢ FanInPoint.returned
unfolding new_thread_pool add_threads ask_pause stop PausePoint.pause PausePoint.pause_test
    PausePoint.pause_if_required PausePoint.notify_paused ThreadControl.add_thread
    PausePoint.add_thread ◌+ℤ◌ FanInPoint.add_thread
stop-paused_example =
    stop-paused (later (later held-Reach stops) (waits 0 refl)) (omega arith) refl 0

-- A worker asks for a pause after `stop` has set its flag.
abbrev to_stop : ThreadPool
to_stop = stop pool

to_stop-Reach : Reach 1 pool to_stop
to_stop-Reach = later here stops

to_stop-Asked : Asked to_stop
unfolding new_thread_pool add_threads stop ThreadControl.add_thread PausePoint.add_thread
to_stop-Asked = (refl, refl)

one_step : Reach 1 to_stop (ask_pause 0 to_stop)
unfolding new_thread_pool add_threads stop ThreadControl.add_thread PausePoint.add_thread
one_step = later here (asks 0 (omega arith) refl refl)

stop-ends_example :
    (worker_steps one_step < 5)
    × ((t : ThreadPool) × (st : Step 1 (ask_pause 0 to_stop) t) × (by_worker st ≡ true))
unfolding new_thread_pool add_threads stop ThreadControl.add_thread PausePoint.add_thread ask_pause
    PausePoint.pause_if_required one_step no_pause
stop-ends_example = stop-ends to_stop-Reach to_stop-Asked one_step refl 0 (omega arith) (λ e. cc)

stop-returns_example :
    (stopped.control.fan_in_point.waiter 1 ≢ FanInPoint.asleep)
    × ((FanInPoint.wait 1 stopped.control.fan_in_point).waiter 1 ≡ FanInPoint.returned)
unfolding new_thread_pool add_threads ask_pause check_stop leave stop PausePoint.pause_if_required
    ThreadControl.add_thread PausePoint.add_thread FanInPoint.done FanInPoint.notify_all
    FanInPoint.add_thread FanInPoint.wait ◌+ℤ◌ ◌-ℤ◌
stop-returns_example = stop-returns stopped-Reach (λ i lt. all i lt) 1
  where
    all : (i : ℕ) → i < 1 → stopped.place i ≡ finished
    all i lt = ground arith

-- Two tasks are waiting and the worker has not begun.
abbrev two_pushed : ThreadPool
two_pushed = push_function 8 (push_function 7 pool)

two_pushed-Going : Going two_pushed
unfolding new_thread_pool add_threads push_function ThreadControl.add_thread PausePoint.add_thread
two_pushed-Going = (refl, refl)

tasks-served_example :
    (t : ThreadPool) × Reach 1 two_pushed t × (t.queue ≡ []) × (t.started ≡ two_pushed.pushed)
tasks-served_example =
    tasks-served (later (later here (pushes 7)) (pushes 8)) (omega arith) two_pushed-Going

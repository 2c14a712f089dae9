-- ===== src/Threading/ThreadPool/Growing/Tests.antt =====
-- Runs of `GenericThreadPool` of include/threading.hpp in which a second thread is added.
use fredlib.Base.{ℕ, ◌<◌, ◌≡◌, ◌≢◌, refl, true, arith, if◌then◌else◌, ◌==◌}
use fredlib.Base.Int.{◌+ℤ◌}
use fredlib.Threading.Threads.{bit}
use fredlib.Threading.FanInPoint
use fredlib.Threading.PausePoint
use fredlib.Threading.PausePoint.Invariant.{is_parked}
use fredlib.Threading.ThreadPool
use fredlib.Threading.ThreadPool.{ThreadPool}
use fredlib.Threading.ThreadPool.Growing.{
  Growing, threads, no_threads, is_adding, is_fan_late, start_thread, count_sync, count_fan,
  count_pause, starts, counts_sync, counts_fan, counts_pause, acts, Reach, here, later,
}
use fredlib.Threading.ThreadPool.Growing.Races.{
  unfinished, parked_workers, add_thread-tests, pause-early, pause-unwoken,
}

abbrev act : (ThreadPool → ThreadPool) → Growing → Growing
act f g = record g { pool = f g.pool }

-- One thread is there, and the second has been started.
abbrev second_started : Growing
second_started = start_thread (count_pause (count_fan (count_sync (start_thread no_threads))))

second_started-Reach : Reach no_threads second_started
unfolding no_threads start_thread count_sync count_fan count_pause FanInPoint.add_thread
second_started-Reach =
    later
      (later (later (later (later here (starts refl)) (counts_sync refl)) (counts_fan refl))
        (counts_pause refl))
      (starts refl)

-- The first one runs a task while the second one parks.
abbrev one_parked : Growing
one_parked = act (ThreadPool.ask_pause 1) (
    act (ThreadPool.with_pause PausePoint.pause) (
      act (ThreadPool.take_task 0) (
        act (ThreadPool.check_stop 0)
          (act (ThreadPool.ask_pause 0) (act (ThreadPool.push_function 7) second_started)))))

one_parked-Reach : Reach no_threads one_parked
unfolding no_threads start_thread count_sync count_fan count_pause FanInPoint.add_thread
    ThreadPool.new_thread_pool ThreadPool.add_threads ThreadPool.push_function ThreadPool.ask_pause
    ThreadPool.check_stop ThreadPool.take_task ThreadPool.take_from PausePoint.pause_if_required
    PausePoint.pause PausePoint.pause_test PausePoint.add_thread ◌+ℤ◌
one_parked-Reach =
    later
      (later
        (later
          (later
            (later (later second_started-Reach (acts (ThreadPool.pushes 7)))
              (acts (ThreadPool.asks 0 (omega arith) refl refl)))
            (acts (ThreadPool.checks 0 (omega arith) refl)))
          (acts (ThreadPool.takes 0 (omega arith) refl)))
        (acts (ThreadPool.pauses refl)))
      (acts (ThreadPool.asks 1 (omega arith) refl refl))

add_thread-tests_example :
    ((FanInPoint.wait 0 one_parked.pool.control.fan_in_point).waiter 0 ≡ (
      if unfinished (threads one_parked.counted (is_adding one_parked.adding)) one_parked.pool
        == bit (is_fan_late one_parked.adding)
      then FanInPoint.returned
      else FanInPoint.asleep))
    × ((PausePoint.pause_test one_parked.pool.control.pause_point).main ≡ (
        if parked_workers (threads one_parked.counted (is_adding one_parked.adding)) one_parked.pool
          == one_parked.counted
        then PausePoint.holding
        else PausePoint.pausing_asleep))
add_thread-tests_example = add_thread-tests one_parked-Reach 0

pause-early_example :
    (PausePoint.pause_test one_parked.pool.control.pause_point).main ≡ PausePoint.holding
unfolding no_threads start_thread count_sync count_fan count_pause FanInPoint.add_thread
    ThreadPool.new_thread_pool ThreadPool.add_threads ThreadPool.push_function ThreadPool.ask_pause
    ThreadPool.check_stop ThreadPool.take_task ThreadPool.take_from PausePoint.pause_if_required
    PausePoint.pause PausePoint.pause_test PausePoint.notify_paused PausePoint.add_thread ◌+ℤ◌
pause-early_example =
    pause-early one_parked-Reach refl 0 (omega arith) refl (λ j lt other. parked j lt other)
  where
    parked :
        (j : ℕ) → j < 2 → j ≢ 0 → is_parked (one_parked.pool.control.pause_point.worker j) ≡ true
    parked j lt other = ground arith

-- Both park while the second is counted by the other points, and `pause` sleeps again.
abbrev both_parked : Growing
both_parked = act (ThreadPool.with_pause PausePoint.pause_test) (
    act (ThreadPool.ask_pause 1) (
      act (ThreadPool.ask_pause 0)
        (act (ThreadPool.with_pause PausePoint.pause) (count_fan (count_sync second_started)))))

both_parked-Reach : Reach no_threads both_parked
unfolding no_threads start_thread count_sync count_fan count_pause FanInPoint.add_thread
    ThreadPool.new_thread_pool ThreadPool.add_threads ThreadPool.ask_pause
    PausePoint.pause_if_required PausePoint.pause PausePoint.pause_test PausePoint.notify_paused
    PausePoint.add_thread ◌+ℤ◌
both_parked-Reach =
    later
      (later
        (later
          (later (later (later second_started-Reach (counts_sync refl)) (counts_fan refl))
            (acts (ThreadPool.pauses refl)))
          (acts (ThreadPool.asks 0 (omega arith) refl refl)))
        (acts (ThreadPool.asks 1 (omega arith) refl refl)))
      (acts (ThreadPool.pause_tests refl))

pause-unwoken_example :
    ((count_pause both_parked).pool.control.pause_point.main ≡ PausePoint.pausing_asleep)
    × ((PausePoint.pause_test (count_pause both_parked).pool.control.pause_point).main
        ≡ PausePoint.holding)
unfolding no_threads start_thread count_sync count_fan count_pause FanInPoint.add_thread
    ThreadPool.new_thread_pool ThreadPool.add_threads ThreadPool.ask_pause
    PausePoint.pause_if_required PausePoint.pause PausePoint.pause_test PausePoint.notify_paused
    PausePoint.add_thread ◌+ℤ◌
pause-unwoken_example = pause-unwoken both_parked-Reach refl refl (λ j lt. parked j lt)
  where
    parked : (j : ℕ) → j < 2 → is_parked (both_parked.pool.control.pause_point.worker j) ≡ true
    parked j lt = ground arith

-- ===== src/Threading/Tests.antt =====
-- Runs of the control points of include/threading.hpp: one or two threads, step by step.
use fredlib.Base.{◌+◌, ℕ, ◌<◌, ◌≡◌, refl, ◌≢◌, true, arith, ◌⊎◌}
use fredlib.Base.Int.{pos, ◌-ℤ◌, ◌+ℤ◌}
use fredlib.Threading.SyncPoint
use fredlib.Threading.SyncPoint.{new_sync_point, sync, recheck, outside, asleep, woken, passed}
use fredlib.Threading.SyncPoint.Rounds
use fredlib.Threading.SyncPoint.Rounds.{rounds-barrier}
use fredlib.Threading.SyncPoint.Barrier.{sync-wakes, sync-overrun}
use fredlib.Threading.FanInPoint
use fredlib.Threading.FanInPoint.{new_fan_in_point, done, wait}
use fredlib.Threading.FanInPoint.Members
use fredlib.Threading.FanInPoint.Members.{wait-counted}
use fredlib.Threading.PausePoint
use fredlib.Threading.PausePoint.{
  new_pause_point, pause_if_required, pause_test, resume_test, pause, resume,
}
use fredlib.Threading.PausePoint.Phases
use fredlib.Threading.PausePoint.Phases.{phases-hold}
use fredlib.Threading.PausePoint.Handshake.{parked-leaves}
use fredlib.Threading.WorkerThreads
use fredlib.Threading.WorkerThreads.{new_worker_threads, join, get_numthreads}
use fredlib.Threading.WorkerThreads.Calls.{here, later, adds, joins, pause_count-started}

-- Two threads call `sync`: the first one sleeps, and the second one wakes it.
abbrev both_called : SyncPoint.SyncPoint
both_called = sync 1 (sync 0 (new_sync_point (pos 2)))

both_called-Reach : SyncPoint.Reach 2 (new_sync_point (pos 2)) both_called
unfolding sync ◌-ℤ◌
both_called-Reach =
    SyncPoint.later (SyncPoint.later SyncPoint.here (SyncPoint.calls 0 (omega arith) refl))
      (SyncPoint.calls 1 (omega arith) refl)

both-not_outside : (j : ℕ) → j < 2 → both_called.pc j ≢ outside
unfolding sync ◌-ℤ◌
both-not_outside j lt e = ground arith

-- Both return, and the first one calls `sync` again in the next round.
abbrev second_round : SyncPoint.SyncPoint
second_round = sync 0 (Rounds.next_round (SyncPoint.initialize (pos 2) (recheck 0 both_called)))

all-passed : Rounds.AllPassed 2 (recheck 0 both_called)
unfolding sync recheck ◌-ℤ◌
all-passed i lt = ground arith

second_round-Reach : Rounds.Reach 2 (new_sync_point (pos 2)) (sync 1 second_round)
unfolding sync ◌-ℤ◌ SyncPoint.initialize recheck
second_round-Reach =
    Rounds.later
      (Rounds.later
        (Rounds.later
          (Rounds.later
            (Rounds.later
              (Rounds.later Rounds.here (Rounds.within (SyncPoint.calls 0 (omega arith) refl)))
              (Rounds.within (SyncPoint.calls 1 (omega arith) refl)))
            (Rounds.within (SyncPoint.tests 0 (omega arith) refl)))
          (Rounds.initializes all-passed))
        (Rounds.within (SyncPoint.calls 0 (omega arith) refl)))
      (Rounds.within (SyncPoint.calls 1 (omega arith) refl))

rounds-barrier_example : (sync 1 second_round).pc 0 ≢ outside
unfolding sync ◌-ℤ◌ SyncPoint.initialize recheck
rounds-barrier_example = rounds-barrier second_round-Reach 1 (omega arith) refl 0 (omega arith)

sync-wakes_example :
    (both_called.pc 0 ≡ passed)
    ⊎ ((both_called.pc 0 ≡ woken) × ((recheck 0 both_called).pc 0 ≡ passed))
sync-wakes_example = sync-wakes both_called-Reach both-not_outside 0 (omega arith)

abbrev used_up : SyncPoint.SyncPoint
used_up = new_sync_point (pos 0)

sync-overrun_example : (sync 1 (sync 0 used_up)).pc 1 ≢ passed
unfolding sync ◌-ℤ◌
sync-overrun_example =
    sync-overrun used_up 0 {n = 2} refl (λ e. cc)
      (SyncPoint.later SyncPoint.here (SyncPoint.calls 1 (omega arith) refl)) 1 (λ e. cc)

-- One child; a thread waits for it.
abbrev done_waiting : FanInPoint.FanInPoint
done_waiting = done 0 (wait 0 (new_fan_in_point (pos 1)))

done_waiting-Reach : FanInPoint.Reach 1 (new_fan_in_point (pos 1)) done_waiting
unfolding wait
done_waiting-Reach =
    FanInPoint.later (FanInPoint.later FanInPoint.here (FanInPoint.waits 0 refl))
      (FanInPoint.finishes 0 (omega arith) refl)

abbrev uncounted : FanInPoint.FanInPoint
uncounted = new_fan_in_point (pos 0)

-- One worker: the main thread pauses it, and resumes it.
abbrev parked : PausePoint.PausePoint
parked = pause_if_required 0 (pause (new_pause_point (pos 1)))

parked-Reach : PausePoint.Reach 1 (new_pause_point (pos 1)) parked
unfolding pause
parked-Reach =
    PausePoint.later (PausePoint.later PausePoint.here (PausePoint.pauses refl))
      (PausePoint.asks 0 (omega arith) refl)

held-Reach : PausePoint.Reach 1 (new_pause_point (pos 1)) (pause_test parked)
unfolding pause pause_if_required
held-Reach = PausePoint.later parked-Reach (PausePoint.pause_tests refl)

abbrev resumed : PausePoint.PausePoint
resumed = resume (pause_test parked)

resumed-Reach : PausePoint.Reach 1 (new_pause_point (pos 1)) resumed
unfolding pause pause_if_required pause_test ◌+ℤ◌
resumed-Reach = PausePoint.later held-Reach (PausePoint.resumes refl)

abbrev left : PausePoint.PausePoint
left = PausePoint.recheck 0 resumed

left-Reach : PausePoint.Reach 1 (new_pause_point (pos 1)) left
unfolding pause pause_if_required pause_test resume ◌+ℤ◌
left-Reach = PausePoint.later resumed-Reach (PausePoint.tests 0 (omega arith) refl)

-- The same after a set-up for one worker instead of three.
abbrev set_up : PausePoint.PausePoint
set_up = PausePoint.set_threadnum (pos 1) (new_pause_point (pos 3))

abbrev held_one : PausePoint.PausePoint
held_one = pause_test (pause_if_required 0 (pause set_up))

held_one-Reach : Phases.Reach 3 (new_pause_point (pos 3)) 1 held_one
unfolding pause pause_if_required PausePoint.set_threadnum
held_one-Reach =
    Phases.later
      (Phases.later
        (Phases.later (Phases.later Phases.here (Phases.sets 1 refl))
          (Phases.within (PausePoint.pauses refl)))
        (Phases.within (PausePoint.asks 0 (omega arith) refl)))
      (Phases.within (PausePoint.pause_tests refl))

phases-hold_example : (held_one.pause ≡ true) × (held_one.worker 0 ≢ PausePoint.running)
unfolding pause pause_if_required pause_test PausePoint.set_threadnum ◌+ℤ◌
phases-hold_example = phases-hold held_one-Reach refl 0 (omega arith)

parked-leaves_example :
    (resumed.worker 0 ≢ PausePoint.asleep)
    × ((PausePoint.recheck 0 resumed).worker 0 ≡ PausePoint.running)
unfolding resume
parked-leaves_example = parked-leaves resumed-Reach refl 0 (omega arith)

all-parked : (i : ℕ) → i < 1 → parked.worker i ≢ PausePoint.running
unfolding pause pause_if_required
all-parked i lt e = ground arith

-- A pool of two threads; one is added, all are joined, and two more are added.
abbrev regrown : WorkerThreads.WorkerThreads
regrown = WorkerThreads.add_thread 2 (join (WorkerThreads.add_thread 1 (new_worker_threads 2)))

pause_count-started_example :
    regrown.control.pause_point.expected ≡ pos (get_numthreads regrown + 3)
unfolding WorkerThreads.add_thread join new_worker_threads get_numthreads
pause_count-started_example =
    pause_count-started 2 (later (later (later here (adds 1)) joins) (adds 2))

-- A child is counted, and works; a thread waits; another child is counted; both end.
abbrev first_counted : FanInPoint.FanInPoint
first_counted = Members.starts_work 0 (FanInPoint.add Members.unused)

abbrev both_counted : FanInPoint.FanInPoint
both_counted = Members.starts_work 1 (FanInPoint.add_thread (pos 1) (wait 7 first_counted))

abbrev both_done : FanInPoint.FanInPoint
both_done = done 1 (done 0 both_counted)

both_done-Reach : Members.Reach 2 Members.unused both_done
unfolding FanInPoint.add FanInPoint.add_thread wait done ◌+ℤ◌ ◌-ℤ◌
both_done-Reach =
    Members.later
      (Members.later
        (Members.later
          (Members.later (Members.later Members.here (Members.counts 0 (omega arith) refl))
            (Members.waits 7 refl))
          (Members.adds 1 (omega arith) refl))
        (Members.finishes 0 (omega arith) refl))
      (Members.finishes 1 (omega arith) refl)

wait-counted_example :
    ((wait 7 both_done).waiter 7 ≡ FanInPoint.returned → Members.Resting 2 both_done)
    × (Members.Resting 2 both_done
        → (both_done.waiter 7 ≢ FanInPoint.asleep)
          × ((wait 7 both_done).waiter 7 ≡ FanInPoint.returned))
wait-counted_example = wait-counted both_done-Reach 7

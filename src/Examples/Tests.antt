-- ===== src/Examples/Tests.antt =====
-- Runs of the programs under examples, under schedules and with addresses that are written out.
use fredlib.Base.{
  ℕ, ◌≡◌, ◌≢◌, refl, true, false, Option, none, some, List, [], ◌∷◌, ◌++◌, arith, has,
  if◌then◌else◌, replicate,
}
use fredlib.Base.Int.{◌+ℤ◌, ◌-ℤ◌}
use fredlib.Threading.SyncPoint
use fredlib.Threading.FanInPoint
use fredlib.Threading.ThreadControl
use fredlib.Threading.ThreadPool
use fredlib.Threading.Program.Points.{dones, to_start}
use fredlib.Threading.Program.Outcomes.{Program, begins, pause-missed}
use fredlib.Threading.PausePoint
use fredlib.Threading.Program.{System, run, here, starts, pauses, goes, with_fan}
use fredlib.Threading.Program.Schedules
use fredlib.Examples.ThreadingDemo.Promises.{faninpoint_demo-early}
use fredlib.SafeList.Heap.{Heap, ListHook, clean}
use fredlib.SafeList.Returns.{Returns}
use fredlib.SafeList.Ops.{new_list}
use fredlib.SafeList.Intrusive.{get_hook}
use fredlib.SafeList.View.{new_list-IsList}
use fredlib.SafeList.World.{World}
use fredlib.Examples.ListDemo.{Locals, list_size, data_of, safe_list_demo}
use fredlib.Examples.ListDemo.Output.{LaidOut, hooks_of, safe_list_demo-prints}
use fredlib.Examples.PoolDemo
use fredlib.Examples.PoolDemo.{Demo, Line, by_task, by_main, pool_demo}
use fredlib.Examples.PoolDemo.Numbers.{main_numbers, will_print}
use fredlib.Examples.PoolDemo.Pending.{task_numbers, open_tasks}
use fredlib.Examples.PoolDemo.Tasks.{pool_demo-prints}
use fredlib.Examples.PoolDemo.Schedules.{run-Reach}
use fredlib.Examples.ThreadingDemo.{faninpoint_demo}

-- One thread, and the two that are added: the first runs the task, and they are paused, resumed, and stopped.
abbrev pool_schedule : List (Option ℕ)
pool_schedule =
    none
    ∷ some 0
    ∷ some 0
    ∷ some 0
    ∷ some 0
    ∷ none
    ∷ some 0
    ∷ none
    ∷ none
    ∷ none
    ∷ some 0
    ∷ none
    ∷ none
    ∷ none
    ∷ none
    ∷ none
    ∷ some 0
    ∷ some 0
    ∷ some 1
    ∷ some 1
    ∷ some 1
    ∷ some 2
    ∷ some 2
    ∷ some 2
    ∷ none
    ∷ none
    ∷ none
    ∷ none
    ∷ none
    ∷ none
    ∷ none
    ∷ none
    ∷ []

abbrev pool_end : Demo
pool_end = PoolDemo.run pool_schedule (pool_demo 1)

pool_ends : pool_end.printed ≡ by_task 11 ∷ by_main 3 ∷ by_main 0 ∷ []
unfolding PoolDemo.run pool_demo ThreadPool.push_function ThreadPool.new_thread_pool
    ThreadControl.add_thread PausePoint.pause ThreadPool.ask_pause PausePoint.pause_if_required ◌+ℤ◌
    PausePoint.resume ThreadPool.recheck_pause PausePoint.recheck ◌-ℤ◌ PoolDemo.get_numthreads
    PoolDemo.add_thread ThreadPool.stop ThreadPool.check_stop ThreadPool.leave FanInPoint.done
    PoolDemo.all_finished PoolDemo.new_pool FanInPoint.add_thread FanInPoint.wait
    PausePoint.add_thread SyncPoint.add_thread ThreadPool.add_threads ThreadPool.end_task
    ThreadPool.take_from ThreadPool.take_task PoolDemo.task_effect
pool_ends = refl

pool_demo-prints_example :
    (main_numbers pool_end.printed ++ will_print pool_end.code pool_end.run.threads ≡ 3 ∷ 0 ∷ [])
    × (task_numbers pool_end.printed ++ replicate (open_tasks 3 pool_end) 11 ≡ 11 ∷ [])
pool_demo-prints_example = pool_demo-prints 1 (run-Reach pool_schedule (pool_demo 1))

-- A program whose only thread has nothing to do.
idle : Program 1
unfolding to_start dones
idle = record {
  body = [];
  main_body = starts 1 ∷ pauses ∷ [];
  result = false;
  arg = 0;
  fits = omega arith;
  one_done = omega arith;
}

pause-missed_example :
    (run 10 (none ∷ none ∷ []) (begins idle)).control.pause_point.main ≢ PausePoint.holding
unfolding run idle PausePoint.pause
pause-missed_example =
    pause-missed idle 10 (Schedules.run-Reach 10 (none ∷ []) (begins idle)) 0 (omega arith) refl
      (Schedules.run-Reach 10 (none ∷ []) (run 10 (none ∷ []) (begins idle)))

-- The first thread of the demo is about to call `done`.
abbrev early : System
early = run 10 (none ∷ some 0 ∷ []) faninpoint_demo

faninpoint_demo-early_example :
    ((FanInPoint.wait 10 early.control.fan_in_point).waiter 10 ≡ FanInPoint.returned)
    × (early.control.fan_in_point.working 0 ≡ true)
    × ((goes 0 [] (with_fan (FanInPoint.done 0) early)).control.fan_in_point.waiter 10
        ≢ FanInPoint.returned)
unfolding run faninpoint_demo
faninpoint_demo-early_example =
    faninpoint_demo-early 10 (Schedules.run-Reach 10 (none ∷ some 0 ∷ []) faninpoint_demo) refl 0
      (omega arith) refl (λ e. cc) here

-- The objects of examples/list.cpp, each with its hook 8 bytes behind its start, but for the two that
-- are hooks themselves.
abbrev locals : Locals
locals = record {
  list = 16;
  data1 = 32;
  data2 = 64;
  data3 = 96;
  derived = 128;
  data7 = 160;
  member = 8;
}

abbrev locals_heap : Heap
locals_heap p = if has p (40 ∷ 72 ∷ 104 ∷ 128 ∷ 160 ∷ []) then some clean else none

locals-LaidOut : LaidOut locals
unfolding get_hook
locals-LaidOut = record {
  apart = (refl, (refl, (refl, (refl, (refl, tt)))));
  hooks_apart = (refl, (refl, (refl, (refl, (refl, tt)))));
  small = omega arith;
  list_live = λ e. omega (arith, e);
}

hook_found : (p : ℕ) (n : ListHook) → locals_heap p ≡ some n → n ≡ clean
hook_found p n e = ground arith

locals-World : World (hooks_of locals) locals_heap new_list []
unfolding get_hook
locals-World = record {
  view = new_list-IsList locals_heap;
  rest = λ p n e out. hook_found p n e;
  alive = λ p i. (clean, record { live = ground arith; holds = ground arith });
}

safe_list_demo-prints_example :
    Returns
      (λ ls g. ls ≡ list_size 3 ∷ list_size 0 ∷ data_of 1 ∷ data_of 3 ∷ data_of 7 ∷ data_of 7 ∷ [])
      (safe_list_demo locals locals_heap)
safe_list_demo-prints_example = safe_list_demo-prints locals locals_heap locals-LaidOut locals-World

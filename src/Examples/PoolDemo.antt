-- ===== src/Examples/PoolDemo.antt =====
-- `genericthreadpool_demo` of examples/threading.cpp, with the members of `GenericThreadPool` that
-- change its number of threads. The demo pushes one task, which is number 0; the numbers printed are kept.
pub mod Numbers
pub mod Pending
pub mod Tasks
pub mod Schedules
use fredlib.Base.{
  ltb, ℕ, zero, suc, ◌+◌, ◌<◌, ◌≡◌, Bool, true, false, ◌&&◌, Option, none, some, List, [], ◌∷◌,
  ◌++◌, if◌then◌else◌, ◌==◌,
}
use mathlib.Core.Option
use fredlib.Threading.Threads.{at_thread}
use fredlib.Threading.FanInPoint
use fredlib.Threading.PausePoint
use fredlib.Threading.ThreadControl
use fredlib.Threading.ThreadPool
use fredlib.Threading.ThreadPool.{
  Place, top, checking, taking, working, leaving, finished, ThreadPool, new_thread_pool,
  add_threads, with_pause, with_fan, ask_pause, recheck_pause, check_stop, take_task, end_task,
  leave, push_function, stop,
}

-- The pool with `_vecThreads.size()`.
pub record Pool : Type 0 where
  pub pool : ThreadPool
  pub threads : ℕ

-- The constructor's count: `hardware_concurrency` is the number of cores, and `scaled` the product with
-- `scale`, a double, rounded towards zero.
unfoldable pub pool_size : (hardware_concurrency : ℕ) (scaled : ℕ → ℕ) → ℕ → ℕ
pool_size hardware_concurrency scaled numthreads =
    scaled (if numthreads == 0 then hardware_concurrency else numthreads)

-- The constructor, from that count on.
unfoldable pub new_pool : ℕ → Pool
new_pool numthreads = record { pool = new_thread_pool numthreads; threads = numthreads }

-- `add_thread`
unfoldable pub add_thread : ℕ → Pool → Pool
add_thread n p = record {
  pool = record p.pool { control = add_threads n p.pool.control };
  threads = p.threads + n;
}

unfoldable pub get_numthreads : Pool → ℕ
get_numthreads p = p.threads

-- One critical section of the worker `i`; `none` if it is blocked, or has ended.
unfoldable pub worker_section : ℕ → ThreadPool → Place → PausePoint.Worker → Option ThreadPool
worker_section i s top PausePoint.running = some (ask_pause i s)
worker_section i s top PausePoint.asleep = none
worker_section i s top PausePoint.woken = some (recheck_pause i s)
worker_section i s checking w = some (check_stop i s)
worker_section i s taking w = some (take_task i s)
worker_section i s (working task) w = some (end_task i s)
worker_section i s leaving w = some (leave i s)
worker_section i s finished w = none

-- What the main thread of the demo does.
pub data PoolOp : Type 0 where
  pushes : PoolOp  -- the task
  pauses : PoolOp
  resumes : PoolOp
  adds_thread : ℕ → PoolOp
  prints_number : PoolOp
  asks_stop : PoolOp  -- `stop`, unless there are no threads, before its wait
  waits : PoolOp  -- the wait of `stop`
  joins : PoolOp  -- the joins of `stop`, and the `clear` behind them

-- A number that is printed: of `assignMe` by the task's `callback`, or of threads by the main thread.
pub data Line : Type 0 where
  by_task : ℕ → Line
  by_main : ℕ → Line

-- `assign_me` is the local variable that the task captures.
pub record Demo : Type 0 where
  pub run : Pool
  pub code : List PoolOp
  pub assign_me : ℕ
  pub printed : List Line

abbrev pub with_pool : (ThreadPool → ThreadPool) → Demo → Demo
with_pool f d = record d { run = record d.run { pool = f d.run.pool } }

unfoldable pub all_finished : ℕ → (ℕ → Place) → Bool
all_finished zero place = true
all_finished (suc n) place =
    (elim (place n) [ finished ↦ true | p ↦ false ]) && all_finished n place

unfoldable pub pause_section : Demo → Demo → PausePoint.Main → Option Demo
pause_section next d PausePoint.free = some (with_pool (with_pause PausePoint.pause) d)
pause_section next d PausePoint.pausing_woken =
    some (with_pool (with_pause PausePoint.pause_test) d)
pause_section next d PausePoint.holding = some next
pause_section next d m = none

unfoldable pub resume_section : Demo → Demo → PausePoint.Main → Option Demo
resume_section next d PausePoint.holding = some (with_pool (with_pause PausePoint.resume) d)
resume_section next d PausePoint.resuming_woken =
    some (with_pool (with_pause PausePoint.resume_test) d)
resume_section next d PausePoint.free = some next
resume_section next d m = none

unfoldable pub wait_section : Demo → Demo → FanInPoint.Waiter → Option Demo
wait_section next d FanInPoint.returned = some next
wait_section next d FanInPoint.asleep = none
wait_section next d w = some (with_pool (with_fan (FanInPoint.wait 0)) d)

-- One critical section of the main thread. `stop` does nothing if there are no threads.
unfoldable pub main_section : PoolOp → List PoolOp → Demo → Option Demo
unfolding pause_section resume_section wait_section all_finished
main_section pushes r d = some (record (with_pool (push_function 0) d) { code = r })
main_section pauses r d =
    pause_section (record d { code = r }) d d.run.pool.control.pause_point.main
main_section resumes r d =
    resume_section (record d { code = r }) d d.run.pool.control.pause_point.main
main_section (adds_thread n) r d = some (record d { run = add_thread n d.run; code = r })
main_section prints_number r d =
    some (record d { printed = d.printed ++ by_main (get_numthreads d.run) ∷ []; code = r })
main_section asks_stop r d =
    some (record (if get_numthreads d.run == 0 then d else with_pool stop d) { code = r })
main_section waits r d =
    if get_numthreads d.run == 0
    then some (record d { code = r })
    else wait_section (record d { code = r }) d (d.run.pool.control.fan_in_point.waiter 0)
main_section joins r d =
    if all_finished d.run.threads d.run.pool.place
    then some (record d { run = record d.run { threads = 0 }; code = r })
    else none

unfoldable pub main_step : Demo → List PoolOp → Option Demo
unfolding main_section
main_step d [] = none
main_step d (op ∷ r) = main_section op r d

-- `stop`, and the destructor, which calls it.
abbrev pub stop_calls : List PoolOp
stop_calls = asks_stop ∷ waits ∷ joins ∷ []

abbrev pub destroy_pool : List PoolOp
destroy_pool = stop_calls

-- The demo with any number of threads that the constructor comes to, with the destructor's `stop` at its end.
unfoldable pub pool_demo : (nthreads : ℕ) → Demo
unfolding new_pool
pool_demo nthreads = record {
  run = new_pool nthreads;
  code =
      (pushes ∷ pauses ∷ resumes ∷ adds_thread 2 ∷ prints_number ∷ [])
      ++ stop_calls
      ++ (prints_number ∷ destroy_pool);
  assign_me = 0;
  printed = [];
}

unfoldable pub genericthreadpool_demo : Demo
unfolding pool_demo pool_size
genericthreadpool_demo = pool_demo (pool_size 0 (λ n. n) 10)

-- `callback`
abbrev pub callback : Demo → Demo
callback d = record d { printed = d.printed ++ by_task d.assign_me ∷ [] }

-- The task. It is one step, since nothing else uses `assignMe`.
abbrev pub run_task : Demo → Demo
run_task d = callback (record d { assign_me = 11 })

-- What a worker's section does outside of the pool: `(*qe->task)()` runs the task.
unfoldable pub task_effect : Place → Demo → Demo
task_effect (working task) d = run_task d
task_effect p d = d

unfoldable pub worker_step : ℕ → Demo → Option Demo
unfolding worker_section task_effect
worker_step i d =
    if ltb i d.run.threads
    then Option.map (λ p. with_pool (λ q. p) (task_effect (d.run.pool.place i) d))
        (worker_section i d.run.pool (d.run.pool.place i) (d.run.pool.control.pause_point.worker i))
    else none

-- A step of a worker, of the main thread, or a wake-up for no reason.
pub data Step (d t : Demo) : Type 0 where
  works : (i : ℕ) → worker_step i d ≡ some t → Step d t
  main_works : main_step d d.code ≡ some t → Step d t
  worker_stirs :
      (i : ℕ)
      → d.run.pool.control.pause_point.worker i ≡ PausePoint.asleep
      → t
        ≡ with_pool
            (with_pause (λ p. record p { worker = at_thread i PausePoint.woken p.worker }))
            d
      → Step d t
  main_stirs : t ≡ with_pool (with_pause PausePoint.notify_paused) d → Step d t
  wait_stirs :
      d.run.pool.control.fan_in_point.waiter 0 ≡ FanInPoint.asleep
      → t ≡ with_pool (with_fan (FanInPoint.waiter_to 0 FanInPoint.woken)) d
      → Step d t

pub data Reach (d : Demo) : Demo → Type 0 where
  here : Reach d d
  later : {t u : Demo} → Reach d t → Step t u → Reach d u

-- A run under a schedule: `none` is a step of the main thread, and `some i` one of worker `i`. A step
-- of a blocked thread, or of none, changes nothing.
abbrev pub or_same : Demo → Option Demo → Demo
or_same d none = d
or_same d (some t) = t

unfoldable pub run : List (Option ℕ) → Demo → Demo
unfolding main_step worker_step
run [] d = d
run (none ∷ ts) d = run ts (or_same d (main_step d d.code))
run (some i ∷ ts) d = run ts (or_same d (worker_step i d))

-- ===== src/Examples/ThreadingDemo.antt =====
-- examples/threading.cpp, but for its last demo: each demo is a program of a main thread and of ten
-- threads that run one function. A demo of a single control point uses that point of a control.
pub mod Promises
pub mod Worker
use fredlib.Base.{ℕ, zero, suc, ◌≡◌, Bool, true, false, List, [], ◌∷◌, arith}
use fredlib.Base.Int.{ℤ, pos}
use fredlib.Threading.ThreadControl.{ThreadControl, new_thread_control}
use fredlib.Threading.WorkerThreads.{new_worker_threads}
use fredlib.Threading.Program.{
  WorkerOp, syncs, asks_pause, is_done, until_stop, pause_loop, loop_test, sleeps, writes_result,
  writes_arg, MainOp, starts, joins, pauses, resumes, asks_stop, waits, main_syncs, sets_threadnum,
  adds_thread, System, launch,
}

abbrev pub nthreads : ℕ
nthreads = 10

-- The numbers 0 to 9 are the first threads, 10 to 19 the second ones; the main thread is 20.
unfoldable pub syncpoint_demo : System
syncpoint_demo =
    launch (new_thread_control (pos nthreads)) (syncs ∷ [])
      (starts nthreads
        ∷ joins
        ∷ sets_threadnum (pos nthreads)
        ∷ adds_thread (pos 1)
        ∷ starts nthreads
        ∷ main_syncs
        ∷ joins
        ∷ [])
      false 0

unfoldable pub pausepoint_demo : System
pausepoint_demo =
    launch (new_thread_control (pos nthreads)) (sleeps ∷ asks_pause ∷ [])
      (starts nthreads ∷ pauses ∷ resumes ∷ joins ∷ []) false 0

-- `FanInPoint fp;` expects no thread.
unfoldable pub faninpoint_demo : System
faninpoint_demo =
    launch (new_thread_control (pos 0)) (sleeps ∷ is_done ∷ [])
      (starts nthreads ∷ waits ∷ joins ∷ []) false 0

unfoldable pub threadcontrol_demo : System
threadcontrol_demo =
    launch (new_thread_control (pos nthreads))
      (syncs ∷ sleeps ∷ asks_pause ∷ sleeps ∷ until_stop ∷ is_done ∷ [])
      (starts nthreads ∷ pauses ∷ resumes ∷ asks_stop ∷ waits ∷ joins ∷ []) false 0

-- `workerthread_demo` with any number of threads. `factor` is 100 at first. The constructor of `WorkerThreads` starts the threads; at the end the
-- destructor stops the pool once more, and joins.
unfoldable pub workers_demo : (nthreads : ℕ) → System
unfolding new_worker_threads
workers_demo nthreads =
    launch (new_worker_threads nthreads).control
      (pause_loop ∷ writes_result true ∷ writes_arg 5 ∷ is_done ∷ syncs ∷ [])
      (starts nthreads ∷ pauses ∷ resumes ∷ asks_stop ∷ waits ∷ asks_stop ∷ waits ∷ joins ∷ [])
      false 100

unfoldable pub workerthread_demo : System
unfolding workers_demo
workerthread_demo = workers_demo nthreads

-- ===== src/Threading/WorkerThreads.antt =====
-- include/threading.hpp, `class WorkerThreads`: a number of threads under one `ThreadControl`. The
-- routine that they run is the user's, and what it does with the control is not modelled here.
pub mod Counts
pub mod Calls
use fredlib.Base.{ℕ, ◌≡◌, refl, ◌+◌, Bool, true, false, if◌then◌else◌, ◌==◌}
use fredlib.Base.Int.{pos}
use fredlib.Threading.SyncPoint
use fredlib.Threading.FanInPoint
use fredlib.Threading.PausePoint
use fredlib.Threading.ThreadControl
use fredlib.Threading.ThreadControl.{ThreadControl}

pub record WorkerThreads : Type 0 where
  pub threads : ℕ  -- _vecThreads.size()
  pub control : ThreadControl  -- _tc

-- `hardware_concurrency` is the number of cores, and `scaled` the product with `scale`, a double,
-- rounded towards zero.
unfoldable pub thread_number : (hardware_concurrency : ℕ) (scaled : ℕ → ℕ) → ℕ → ℕ
thread_number hardware_concurrency scaled nthreads =
    scaled (if nthreads == 0 then hardware_concurrency else nthreads)

-- The constructor and `add_thread`, with the number of threads that they come to.
unfoldable pub new_worker_threads : ℕ → WorkerThreads
new_worker_threads n = record {
  threads = n;
  control = ThreadControl.initialize (pos n) (ThreadControl.new_thread_control (pos 0));
}

unfoldable pub add_thread : ℕ → WorkerThreads → WorkerThreads
add_thread n w = record w {
  threads = w.threads + n;
  control = ThreadControl.add_thread (pos n) w.control;
}

-- `join`, once every thread has ended.
unfoldable pub join : WorkerThreads → WorkerThreads
join w = record w { threads = 0 }

-- `stop` up to its wait: nothing, if there are no threads.
unfoldable pub stop : WorkerThreads → WorkerThreads
stop w = if w.threads == 0 then w else record w { control = ThreadControl.request_stop w.control }

-- One critical section of `pause`, of `resume` and of `sync`, which the control's points make.
unfoldable pub pause : WorkerThreads → WorkerThreads
pause w = record w {
  control = record w.control { pause_point = PausePoint.pause w.control.pause_point };
}

unfoldable pub resume : WorkerThreads → WorkerThreads
resume w = record w {
  control = record w.control { pause_point = PausePoint.resume w.control.pause_point };
}

unfoldable pub sync : (thread : ℕ) → WorkerThreads → WorkerThreads
sync thread w = record w {
  control = record w.control { sync_point = SyncPoint.sync thread w.control.sync_point };
}

-- One critical section of `wait` by the caller: nothing, if there are no threads.
unfoldable pub wait : (caller : ℕ) → WorkerThreads → WorkerThreads
wait caller w = if w.threads == 0 then w else record w {
  control = record w.control { fan_in_point = FanInPoint.wait caller w.control.fan_in_point };
}

-- `stop` with one section of its wait, and the destructor, once every thread has ended.
unfoldable pub stop_and_wait : (caller : ℕ) → WorkerThreads → WorkerThreads
unfolding stop wait
stop_and_wait caller w = wait caller (stop w)

unfoldable pub destroy : (caller : ℕ) → WorkerThreads → WorkerThreads
unfolding stop_and_wait join
destroy caller w = join (stop_and_wait caller w)

-- After `join` neither `wait` nor the destructor does anything.
joined-wait : (caller : ℕ) (w : WorkerThreads) → wait caller (join w) ≡ join w
unfolding wait join
joined-wait caller w = refl

joined-destroy : (caller : ℕ) (w : WorkerThreads) → destroy caller (join w) ≡ join w
unfolding destroy stop_and_wait stop wait join
joined-destroy caller w = refl

unfoldable pub get_numthreads : WorkerThreads → ℕ
get_numthreads w = w.threads

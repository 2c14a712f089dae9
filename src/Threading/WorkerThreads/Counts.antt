-- ===== src/Threading/WorkerThreads/Counts.antt =====
-- The counts of the control points of include/threading.hpp's `WorkerThreads`.
use fredlib.Base.{ℕ, ◌+◌, ◌<◌, ◌≡◌, ◌≢◌, refl, sym, ap, ◌∙◌, List, [], ◌∷◌, arith}
use fredlib.Base.Int.{ℤ, pos, ◌+ℤ◌, +ℤ_pos, pos-injective}
use fredlib.Threading.SyncPoint
use fredlib.Threading.FanInPoint
use fredlib.Threading.PausePoint
use fredlib.Threading.ThreadControl
use fredlib.Threading.ThreadControl.{ThreadControl}
use fredlib.Threading.WorkerThreads.{
  WorkerThreads, new_worker_threads, add_thread, join, get_numthreads,
}

-- All three points expect `n` threads.
abbrev pub Expects : ℕ → ThreadControl → Type 0
Expects n c =
    (c.sync_point.expected ≡ pos n)
    × (c.fan_in_point.expected ≡ pos n)
    × (c.pause_point.expected ≡ pos n)

-- `add_thread` for each number of a list.
abbrev pub add_all : List ℕ → WorkerThreads → WorkerThreads
add_all [] w = w
add_all (k ∷ ks) w = add_all ks (add_thread k w)

add_thread-Expects :
    (k : ℕ) (w : WorkerThreads)
    → Expects (get_numthreads w) w.control
    → Expects (get_numthreads (add_thread k w)) (add_thread k w).control
unfolding add_thread get_numthreads ThreadControl.add_thread SyncPoint.add_thread
    FanInPoint.add_thread PausePoint.add_thread
add_thread-Expects k w (a, b, c) = (grows a, grows b, grows c)
  where
    grows : {z : ℤ} → z ≡ pos w.threads → z +ℤ pos k ≡ pos (w.threads + k)
    grows e = ap (λ z. z +ℤ pos k) e ∙ +ℤ_pos w.threads k

add_all-Expects :
    (ks : List ℕ) (w : WorkerThreads)
    → Expects (get_numthreads w) w.control
    → Expects (get_numthreads (add_all ks w)) (add_all ks w).control
add_all-Expects [] w e = e
add_all-Expects (k ∷ ks) w e = add_all-Expects ks (add_thread k w) (add_thread-Expects k w e)

-- After the construction of `WorkerThreads` with `n` threads and any calls of `add_thread`, each
-- of the three control points expects as many threads as there are.
pub workers-Expects :
    (n : ℕ) (ks : List ℕ)
    → Expects
        (get_numthreads (add_all ks (new_worker_threads n)))
        (add_all ks (new_worker_threads n)).control
unfolding new_worker_threads get_numthreads ThreadControl.initialize SyncPoint.initialize
    FanInPoint.initialize PausePoint.initialize
workers-Expects n ks = add_all-Expects ks (new_worker_threads n) (refl, refl, refl)

-- If `n > 0` threads are constructed and joined and `k` threads are added then, there are `k`
-- threads, and the count for which `pause` waits is another.
pub join-overcounts :
    (n k : ℕ)
    → 0 < n
    → (get_numthreads (add_thread k (join (new_worker_threads n))) ≡ k)
      × ((add_thread k (join (new_worker_threads n))).control.pause_point.expected ≢ pos k)
unfolding add_thread join new_worker_threads get_numthreads ThreadControl.initialize
    ThreadControl.add_thread PausePoint.initialize PausePoint.add_thread
join-overcounts n k some = (
  omega arith,
  λ e. let same : n + k ≡ k = pos-injective (sym (+ℤ_pos n k) ∙ e) in absurd (omega (arith, same)),
)

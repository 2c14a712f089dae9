-- ===== src/Threading/WorkerThreads/Calls.antt =====
-- include/threading.hpp, `class WorkerThreads`: its members in any order, among the steps of the threads.
use fredlib.Base.{ℕ, ◌+◌, ◌≡◌, refl, ap, ◌∙◌, Bool, true, false, if◌then◌else◌, arith, ◌==◌}
use fredlib.Base.Int.{pos, ◌+ℤ◌, +ℤ_pos}
use fredlib.Threading.SyncPoint
use fredlib.Threading.FanInPoint
use fredlib.Threading.PausePoint
use fredlib.Threading.ThreadControl
use fredlib.Threading.ThreadControl.{ThreadControl}
use fredlib.Threading.WorkerThreads.{
  WorkerThreads, new_worker_threads, add_thread, join, stop, wait, sync, pause, resume,
  get_numthreads,
}

-- `joined` counts the threads that `join` has taken out of the vector.
pub record Run : Type 0 where
  pub workers : WorkerThreads
  pub joined : ℕ

abbrev pub calls : (WorkerThreads → WorkerThreads) → Run → Run
calls f s = record s { workers = f s.workers }

abbrev with_control : (ThreadControl → ThreadControl) → WorkerThreads → WorkerThreads
with_control f w = record w { control = f w.control }

-- A section of a member, or a step of the routine, which uses the three points as it likes: its steps
-- at the pause point are those of `PausePoint.Step`, and those at the other two are any.
pub data Step (s : Run) : Run → Type 0 where
  adds : (k : ℕ) → Step s (calls (add_thread k) s)
  joins : Step s (record { workers = join s.workers; joined = s.joined + get_numthreads s.workers })
  pauses : Step s (calls pause s)
  resumes : Step s (calls resume s)
  stops : Step s (calls stop s)
  waits : (caller : ℕ) → Step s (calls (wait caller) s)
  syncs : (thread : ℕ) → Step s (calls (sync thread) s)
  moves_pause :
      (n : ℕ) (p : PausePoint.PausePoint)
      → PausePoint.Step n s.workers.control.pause_point p
      → Step s (calls (with_control (λ c. record c { pause_point = p })) s)
  moves_sync :
      (f : SyncPoint.SyncPoint → SyncPoint.SyncPoint)
      → Step s (calls (with_control (λ c. record c { sync_point = f c.sync_point })) s)
  moves_fan :
      (f : FanInPoint.FanInPoint → FanInPoint.FanInPoint)
      → Step s (calls (with_control (λ c. record c { fan_in_point = f c.fan_in_point })) s)

pub data Reach (s : Run) : Run → Type 0 where
  here : Reach s s
  later : {t u : Run} → Reach s t → Step t u → Reach s u

-- The number of threads that were ever started is the count of the pause point.
abbrev Counted : Run → Type 0
Counted s = s.workers.control.pause_point.expected ≡ pos (get_numthreads s.workers + s.joined)

-- No step of the pause point itself changes its count.
expected_kept :
    (n : ℕ) {p q : PausePoint.PausePoint} → PausePoint.Step n p q → q.expected ≡ p.expected
unfolding PausePoint.pause_if_required PausePoint.recheck PausePoint.notify_paused
    PausePoint.notify_pause PausePoint.pause PausePoint.pause_test PausePoint.resume
    PausePoint.resume_test
expected_kept n (PausePoint.asks i lt e) = ground arith
expected_kept n (PausePoint.stirs i lt e) = refl
expected_kept n (PausePoint.tests i lt e) = ground arith
expected_kept n (PausePoint.pauses e) = refl
expected_kept n (PausePoint.resumes e) = refl
expected_kept n PausePoint.main_stirs = refl
expected_kept n (PausePoint.pause_tests e) = refl
expected_kept n (PausePoint.resume_tests e) = refl

Step-Counted : {s t : Run} → Step s t → Counted s → Counted t
unfolding add_thread join get_numthreads pause resume stop wait sync ThreadControl.add_thread
    PausePoint.add_thread PausePoint.pause PausePoint.pause_test PausePoint.resume
    PausePoint.resume_test PausePoint.notify_pause
Step-Counted {s} (adds k) e = ap (λ z. z +ℤ pos k) e ∙ +ℤ_pos _ k ∙ ap pos (omega arith)
Step-Counted {s} joins e = e ∙ ap pos (omega arith)
Step-Counted pauses e = e
Step-Counted resumes e = e
Step-Counted {s} stops e = at (s.workers.threads == 0)
  where
    at :
        (b : Bool)
        → Counted (calls (λ w. if b then w else with_control ThreadControl.request_stop w) s)
    at true = e
    at false = e
Step-Counted {s} (waits caller) e = at (s.workers.threads == 0)
  where
    waited : WorkerThreads → WorkerThreads
    waited = with_control (λ c. record c { fan_in_point = FanInPoint.wait caller c.fan_in_point })

    at : (b : Bool) → Counted (calls (λ w. if b then w else waited w) s)
    at true = e
    at false = e
Step-Counted (syncs thread) e = e
Step-Counted (moves_pause n p st) e = expected_kept n st ∙ e
Step-Counted (moves_sync f) e = e
Step-Counted (moves_fan f) e = e

abbrev pub begins : ℕ → Run
begins n = record { workers = new_worker_threads n; joined = 0 }

-- In every state that `WorkerThreads`, constructed with `n` threads, reaches by calls of its
-- members and steps of its threads: the count for which `pause` waits is the number of its threads
-- together with that of the threads joined before.
pub pause_count-started :
    (n : ℕ) {s : Run}
    → Reach (begins n) s
    → s.workers.control.pause_point.expected ≡ pos (get_numthreads s.workers + s.joined)
unfolding new_worker_threads get_numthreads ThreadControl.initialize PausePoint.initialize
pause_count-started n here = ap pos (omega arith)
pause_count-started n (later r st) = Step-Counted st (pause_count-started n r)

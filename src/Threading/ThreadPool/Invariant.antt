-- ===== src/Threading/ThreadPool/Invariant.antt =====
-- The invariant of `GenericThreadPool` of include/threading.hpp: it drives its control points by their
-- steps, and what the workers' places say of them.
use fredlib.Base.{
  ℕ, zero, suc, ◌+◌, ◌≡◌, refl, sym, ap, subst, ◌∙◌, Bool, true, false, not, [], ◌++◌, arith,
}
use fredlib.Base.Int.{pos, +ℤ_pos}
use fredlib.Threading.SyncPoint
use fredlib.Threading.FanInPoint
use fredlib.Threading.PausePoint
use fredlib.Threading.PausePoint.Invariant.{is_parked}
use fredlib.Threading.ThreadControl
use fredlib.Threading.ThreadControl.{ThreadControl}
use fredlib.Threading.ThreadPool.{
  Place, top, leaving, finished, ThreadPool, add_threads, new_thread_pool,
}

abbrev pub is_finished : Place → Bool
is_finished finished = true
is_finished p = false

abbrev pub is_stopping : Place → Bool
is_stopping finished = true
is_stopping leaving = true
is_stopping p = false

pub record Inv (n : ℕ) (s : ThreadPool) : Type 0 where
  pub pausing : PausePoint.Reach n (PausePoint.new_pause_point (pos n)) s.control.pause_point
  pub fanning : FanInPoint.Reach n (FanInPoint.new_fan_in_point (pos n)) s.control.fan_in_point
  pub parked : (i : ℕ) → is_parked (s.control.pause_point.worker i) ≡ true → s.place i ≡ top
  pub counted : (i : ℕ) → s.control.fan_in_point.working i ≡ not (is_finished (s.place i))
  pub asked : (i : ℕ) → is_stopping (s.place i) ≡ true → s.control.stopper ≡ true
  pub in_order : s.started ++ s.queue ≡ s.pushed

-- The constructor counts its threads.
add_threads-new :
    (n k : ℕ)
    → add_threads n (ThreadControl.new_thread_control (pos k))
      ≡ ThreadControl.new_thread_control (pos (k + n))
unfolding add_threads ThreadControl.add_thread SyncPoint.add_thread FanInPoint.add_thread
    PausePoint.add_thread
add_threads-new zero k =
    let e : k ≡ k + zero = omega arith in ap (λ m. ThreadControl.new_thread_control (pos m)) e
add_threads-new (suc n) k =
    let e : k + 1 + n ≡ k + suc n = omega arith in
    ap (λ c. add_threads n (ThreadControl.new_thread_control c)) (+ℤ_pos k 1)
    ∙ add_threads-new n (k + 1)
    ∙ ap (λ m. ThreadControl.new_thread_control (pos m)) e

-- The pool with which the constructor ends.
abbrev new_with : ThreadControl → ThreadPool
new_with c = record { queue = []; control = c; place = λ _. top; started = []; pushed = [] }

pub start-Inv : (n : ℕ) → Inv n (new_thread_pool n)
unfolding new_thread_pool
start-Inv n =
    let e : pos (0 + n) ≡ pos n = ap pos (omega arith) in
    subst (λ c. Inv n (new_with c))
      (sym (add_threads-new n 0 ∙ ap ThreadControl.new_thread_control e))
      (record {
        pausing = PausePoint.here;
        fanning = FanInPoint.here;
        parked = λ i q. refl;
        counted = λ i. refl;
        asked = λ i q. absurd (cc);
        in_order = refl;
      })

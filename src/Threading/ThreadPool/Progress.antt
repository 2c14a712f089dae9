-- ===== src/Threading/ThreadPool/Progress.antt =====
-- Runs of include/threading.hpp's `GenericThreadPool` in which its tasks are taken.
use mathlib.Core.Bool.{false≢true}
use fredlib.Base.{ℕ, ◌<◌, ◌≡◌, refl, sym, ap, ◌∙◌, false, List, [], ◌∷◌, ◌++◌, arith}
use mathlib.Core.List.{append-nil}
use fredlib.Threading.PausePoint
use fredlib.Threading.PausePoint.{Worker, running, asleep, woken}
use fredlib.Threading.ThreadPool.{
  Place, top, checking, taking, working, leaving, finished, ThreadPool, new_thread_pool, Step, asks,
  stirs, rechecks, checks, takes, ends, Reach, here, later, ask_pause, recheck_pause, check_stop,
  take_from, take_task, end_task,
}
use fredlib.Threading.ThreadPool.Invariant.{is_stopping, Inv}
use fredlib.Threading.ThreadPool.Moves.{Step-Inv, Reach-Inv, Reach-append}
use fredlib.Threading.ThreadPool.Ending.Distance.{away-running}

-- Nobody has asked the workers to stop or to pause.
abbrev pub Going : ThreadPool → Type 0
Going s = (s.control.stopper ≡ false) × (s.control.pause_point.pause ≡ false)

-- The first worker is brought to `pop_front`.
record Served (n : ℕ) (s : ThreadPool) : Type 0 where
  then_pool : ThreadPool
  run : Reach n s then_pool
  inv : Inv n then_pool
  going : Going then_pool
  at : then_pool.place 0 ≡ taking
  same_queue : then_pool.queue ≡ s.queue
  same_pushed : then_pool.pushed ≡ s.pushed

-- It is after a first step.
after_step :
    {n : ℕ} {s t : ThreadPool}
    → Step n s t
    → t.queue ≡ s.queue
    → t.pushed ≡ s.pushed
    → Served n t
    → Served n s
after_step st e f served = record {
  then_pool = served.then_pool;
  run = Reach-append (later here st) served.run;
  inv = served.inv;
  going = served.going;
  at = served.at;
  same_queue = served.same_queue ∙ e;
  same_pushed = served.same_pushed ∙ f;
}

module _ (n : ℕ) (some_worker : 0 < n) where
  from_taking : (s : ThreadPool) → Inv n s → Going s → s.place 0 ≡ taking → Served n s
  from_taking s inv going e = record {
    then_pool = s;
    run = here;
    inv = inv;
    going = going;
    at = e;
    same_queue = refl;
    same_pushed = refl;
  }

  from_checking : (s : ThreadPool) → Inv n s → Going s → s.place 0 ≡ checking → Served n s
  unfolding check_stop
  from_checking s inv (go, clear) e =
      let st = checks 0 some_worker e in
      after_step st refl refl
        (from_taking (check_stop 0 s) (Step-Inv st inv) (go, clear) (ground arith))

  from_running :
      (s : ThreadPool)
      → Inv n s
      → Going s
      → s.place 0 ≡ top
      → s.control.pause_point.worker 0 ≡ running
      → Served n s
  unfolding ask_pause PausePoint.pause_if_required
  from_running s inv (go, clear) e w =
      let st = asks 0 some_worker e w in
      after_step st refl refl
        (from_checking (ask_pause 0 s) (Step-Inv st inv) (go, ground arith) (ground arith))

  from_woken :
      (s : ThreadPool) → Inv n s → Going s → s.control.pause_point.worker 0 ≡ woken → Served n s
  unfolding recheck_pause PausePoint.recheck PausePoint.notify_paused
  from_woken s inv (go, clear) w =
      let st = rechecks 0 some_worker w in
      after_step st refl refl
        (from_checking (recheck_pause 0 s) (Step-Inv st inv) (go, ground arith) (ground arith))

  -- Wherever it stands.
  serve :
      (s : ThreadPool)
      → Inv n s
      → Going s
      → (p : Place) (w : Worker) → s.place 0 ≡ p
      → s.control.pause_point.worker 0 ≡ w
      → Served n s
  unfolding end_task
  serve s inv going top running e w = from_running s inv going e w
  serve s inv going top woken e w = from_woken s inv going w
  serve s inv going top asleep e w =
      let st = stirs 0 some_worker w in
      after_step st refl refl (from_woken _ (Step-Inv st inv) going refl)
  serve s inv going checking v e w = from_checking s inv going e
  serve s inv going taking v e w = from_taking s inv going e
  serve s inv going (working task) v e w =
      let st = ends 0 task some_worker e in
      after_step st refl refl (
        from_running (end_task 0 s) (Step-Inv st inv) going refl
          (away-running inv 0 (λ t. cc (sym t ∙ e))))
  serve s inv (go, clear) leaving v e w =
      absurd (false≢true (sym go ∙ inv.asked 0 (ap is_stopping e)))
  serve s inv (go, clear) finished v e w =
      absurd (false≢true (sym go ∙ inv.asked 0 (ap is_stopping e)))

  -- It takes the tasks one by one.
  drain :
      (q : List ℕ) (s : ThreadPool)
      → s.queue ≡ q
      → Inv n s
      → Going s
      → (t : ThreadPool) × Reach n s t × Inv n t × (t.queue ≡ []) × (t.pushed ≡ s.pushed)
  unfolding take_task take_from
  drain [] s e inv going = (s, here, inv, e, refl)
  drain (task ∷ q) s e inv going =
      let served = serve s inv going (s.place 0) (s.control.pause_point.worker 0) refl refl in
      let u = served.then_pool in
      let st : Step n u (take_task 0 u) = takes 0 some_worker served.at in
      let more = served.same_queue ∙ e in
      let going' : Going (take_task 0 u) = (
        ap (λ l. (take_from 0 l u).control.stopper) more ∙ served.going.0,
        ap (λ l. (take_from 0 l u).control.pause_point.pause) more ∙ served.going.1,
      ) in
      let (t, run, inv', empty, same) =
        drain q (take_task 0 u) (ap (λ l. (take_from 0 l u).queue) more) (Step-Inv st served.inv)
          going' in
      (
        t,
        Reach-append (later served.run st) run,
        inv',
        empty,
        same ∙ ap (λ l. (take_from 0 l u).pushed) more ∙ served.same_pushed,
      )

-- From every state that a `GenericThreadPool` of `n > 0` workers reaches in which neither the stop
-- flag nor the pause flag is set, it can reach a state in which the queue is empty and the workers
-- have taken exactly the tasks that were pushed before, in their order.
pub tasks-served :
    {n : ℕ} {s : ThreadPool}
    → Reach n (new_thread_pool n) s
    → 0 < n
    → Going s
    → (t : ThreadPool) × Reach n s t × (t.queue ≡ []) × (t.started ≡ s.pushed)
tasks-served {n} {s} r some_worker going =
    let (t, run, inv, empty, same) = drain n some_worker s.queue s refl (Reach-Inv r) going in
    (
      t,
      run,
      empty,
      sym (append-nil t.started) ∙ ap (λ q. t.started ++ q) (sym empty) ∙ inv.in_order ∙ same,
    )

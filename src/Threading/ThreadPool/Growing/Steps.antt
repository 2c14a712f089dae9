-- ===== src/Threading/ThreadPool/Growing/Steps.antt =====
-- The steps of include/threading.hpp's `GenericThreadPool`, and its counts while threads are added.
use fredlib.Base.{
  ℕ, ◌<◌, ◌≤◌, ◌≡◌, ◌≢◌, refl, sym, ap, ◌∙◌, Bool, true, false, not, List, [], ◌∷◌, arith,
  Bool-cases, ◌==◌, ==_iff, inl, inr, if◌then◌else◌,
}
use fredlib.Threading.Threads.{at_thread}
use fredlib.Threading.FanInPoint
use fredlib.Threading.PausePoint
use fredlib.Threading.PausePoint.Invariant.{is_parked}
use fredlib.Threading.ThreadPool
use fredlib.Threading.ThreadPool.{
  Place, top, checking, taking, working, leaving, finished, ThreadPool, new_thread_pool, with_pause,
  with_fan, move, ask_pause, recheck_pause, check_stop, take_from, take_task, end_task, leave,
  push_function, stop,
}
use fredlib.Threading.ThreadPool.Invariant.{is_finished}
use fredlib.Threading.ThreadPool.Growing.Counts.{
  FanCounts, PauseCounts, FanStep-Counts, PauseStep-Counts,
}

-- The counts of `n` threads, of which `c` are counted, and what the workers' places say of the points.
pub record Counts (n c : ℕ) (a : Bool) (s : ThreadPool) : Type 0 where
  pub fan : FanCounts n a s.control.fan_in_point
  pub pauses : PauseCounts n c s.control.pause_point
  pub at_work : (i : ℕ) → s.control.fan_in_point.working i ≡ not (is_finished (s.place i))
  pub parked : (i : ℕ) → is_parked (s.control.pause_point.worker i) ≡ true → s.place i ≡ top
  pub fresh :
      (i : ℕ)
      → n ≤ i
      → (is_finished (s.place i) ≡ false) × (is_parked (s.control.pause_point.worker i) ≡ false)

module _ (n c : ℕ) (a : Bool) (s : ThreadPool) (k : Counts n c a s) where
  fans-Counts :
      (f : FanInPoint.FanInPoint → FanInPoint.FanInPoint)
      → FanInPoint.Step n s.control.fan_in_point (f s.control.fan_in_point)
      → ((j : ℕ) → (f s.control.fan_in_point).working j ≡ s.control.fan_in_point.working j)
      → Counts n c a (with_fan f s)
  fans-Counts f st same = record {
    fan = FanStep-Counts a st k.fan;
    pauses = k.pauses;
    at_work = λ j. same j ∙ k.at_work j;
    parked = k.parked;
    fresh = k.fresh;
  }

  pauses-Counts :
      (f : PausePoint.PausePoint → PausePoint.PausePoint)
      → PausePoint.Step n s.control.pause_point (f s.control.pause_point)
      → ((j : ℕ)
          → is_parked ((f s.control.pause_point).worker j)
            ≡ is_parked (s.control.pause_point.worker j))
      → Counts n c a (with_pause f s)
  pauses-Counts f st same = record {
    fan = k.fan;
    pauses = PauseStep-Counts c st k.pauses;
    at_work = k.at_work;
    parked = λ j q. k.parked j (sym (same j) ∙ q);
    fresh = λ j le. ((k.fresh j le).0, same j ∙ (k.fresh j le).1);
  }

  -- A worker that is not at the top of its loop goes on in it.
  moves-Counts :
      (i : ℕ) (x y : Place)
      → s.place i ≡ x
      → is_finished x ≡ false
      → is_finished y ≡ false
      → x ≢ top
      → Counts n c a (move i y s)
  moves-Counts i x y e busy going away = record {
    fan = k.fan;
    pauses = k.pauses;
    at_work = λ j. let w = k.at_work j in ground arith;
    parked = λ j q. elim (Bool-cases (j == i)) [
      | inl hit ↦ absurd (
          away (
            sym e
            ∙ k.parked i (
                sym (ap (λ z. is_parked (s.control.pause_point.worker z)) ((==_iff j i).0 hit))
                ∙ q)))
      | inr miss ↦ rw miss (k.parked j q)
    ];
    fresh = λ j le. let f = k.fresh j le in ground arith;
  }

  takes-Counts : (i : ℕ) → s.place i ≡ taking → (q : List ℕ) → Counts n c a (take_from i q s)
  unfolding take_from
  takes-Counts i e [] = moves-Counts i taking top e refl refl (λ t. cc)
  takes-Counts i e (task ∷ rest) =
      let moved = moves-Counts i taking (working task) e refl refl (λ t. cc) in
      record {
        fan = moved.fan;
        pauses = moved.pauses;
        at_work = moved.at_work;
        parked = moved.parked;
        fresh = moved.fresh;
      }

  asks-Counts :
      (i : ℕ)
      → i < n
      → s.place i ≡ top
      → s.control.pause_point.worker i ≡ PausePoint.running
      → Counts n c a (ask_pause i s)
  unfolding ask_pause PausePoint.pause_if_required PausePoint.notify_paused
  asks-Counts i lt e w = record {
    fan = k.fan;
    pauses = PauseStep-Counts c (PausePoint.asks i lt w) k.pauses;
    at_work = λ j. ground (arith, k.at_work j);
    parked = λ j q. ground (arith, k.parked j);
    fresh = λ j le. let f = k.fresh j le in ground arith;
  }

  rechecks-Counts :
      (i : ℕ)
      → i < n
      → s.control.pause_point.worker i ≡ PausePoint.woken
      → Counts n c a (recheck_pause i s)
  unfolding recheck_pause PausePoint.recheck PausePoint.notify_paused
  rechecks-Counts i lt w =
      let e : s.place i ≡ top = k.parked i (ap is_parked w) in
      record {
        fan = k.fan;
        pauses = PauseStep-Counts c (PausePoint.tests i lt w) k.pauses;
        at_work = λ j. ground (arith, k.at_work j);
        parked = λ j q. ground (arith, k.parked j);
        fresh = λ j le. let f = k.fresh j le in ground arith;
      }

going : (b : Bool) → is_finished (if b then leaving else taking) ≡ false
going true = refl
going false = refl

pub Step-Counts :
    {n : ℕ} {s t : ThreadPool} (c : ℕ) (a : Bool)
    → ThreadPool.Step n s t
    → Counts n c a s
    → Counts n c a t
unfolding ask_pause recheck_pause check_stop take_task end_task leave push_function stop
    FanInPoint.done FanInPoint.notify_all FanInPoint.wait PausePoint.pause PausePoint.pause_test
    PausePoint.resume PausePoint.resume_test PausePoint.notify_pause PausePoint.notify_paused
Step-Counts {n} {s} c a (ThreadPool.asks i lt e w) k = asks-Counts n c a s k i lt e w
Step-Counts {n} {s} c a (ThreadPool.stirs i lt w) k =
    pauses-Counts n c a s k (λ p. record p { worker = at_thread i PausePoint.woken p.worker })
      (PausePoint.stirs i lt w) (λ j. ground (arith, ap is_parked w))
Step-Counts {n} {s} c a (ThreadPool.rechecks i lt w) k = rechecks-Counts n c a s k i lt w
Step-Counts {n} {s} c a (ThreadPool.checks i lt e) k =
    moves-Counts n c a s k i checking _ e refl (going s.control.stopper) (λ t. cc)
Step-Counts {n} {s} c a (ThreadPool.takes i lt e) k = takes-Counts n c a s k i e s.queue
Step-Counts {n} {s} c a (ThreadPool.ends i task lt e) k =
    moves-Counts n c a s k i (working task) top e refl refl (λ t. cc)
Step-Counts {n} {s} c a (ThreadPool.leaves i lt e) k = record {
  fan =
      FanStep-Counts {f = s.control.fan_in_point} a
        (FanInPoint.finishes i lt (k.at_work i ∙ ap (λ p. not (is_finished p)) e)) k.fan;
  pauses = k.pauses;
  at_work = λ j. let w = k.at_work j in ground arith;
  parked = λ j q. ground (arith, k.parked j);
  fresh = λ j le. let f = k.fresh j le in ground arith;
}
Step-Counts {n} {s} c a (ThreadPool.pushes task) k = record {
  fan = k.fan;
  pauses = k.pauses;
  at_work = k.at_work;
  parked = k.parked;
  fresh = k.fresh;
}
Step-Counts {n} {s} c a ThreadPool.stops k = record {
  fan = k.fan;
  pauses = k.pauses;
  at_work = k.at_work;
  parked = k.parked;
  fresh = k.fresh;
}
Step-Counts {n} {s} c a (ThreadPool.waits j e) k =
    fans-Counts n c a s k (FanInPoint.wait j) (FanInPoint.waits j e) (λ i. ground arith)
Step-Counts {n} {s} c a (ThreadPool.wakes j e) k =
    fans-Counts n c a s k (FanInPoint.waiter_to j FanInPoint.woken) (FanInPoint.wakes j e)
      (λ i. refl)
Step-Counts {n} {s} c a (ThreadPool.waits_on j e) k =
    fans-Counts n c a s k (FanInPoint.wait j) (FanInPoint.tests j e) (λ i. ground arith)
Step-Counts {n} {s} c a (ThreadPool.pauses e) k =
    pauses-Counts n c a s k PausePoint.pause (PausePoint.pauses e) (λ j. refl)
Step-Counts {n} {s} c a (ThreadPool.resumes e) k =
    pauses-Counts n c a s k PausePoint.resume (PausePoint.resumes e) (λ j. ground arith)
Step-Counts {n} {s} c a ThreadPool.main_stirs k =
    pauses-Counts n c a s k PausePoint.notify_paused PausePoint.main_stirs (λ j. refl)
Step-Counts {n} {s} c a (ThreadPool.pause_tests e) k =
    pauses-Counts n c a s k PausePoint.pause_test (PausePoint.pause_tests e) (λ j. refl)
Step-Counts {n} {s} c a (ThreadPool.resume_tests e) k =
    pauses-Counts n c a s k PausePoint.resume_test (PausePoint.resume_tests e) (λ j. refl)

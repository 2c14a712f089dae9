-- ===== src/Threading/ThreadPool/Moves.antt =====
-- Each step of `GenericThreadPool` of include/threading.hpp keeps its invariant.
use fredlib.Base.{
  ℕ, ◌<◌, ◌≡◌, refl, sym, ap, ◌≢◌, Bool-cases, inl, inr, ◌∙◌, Bool, true, false, not, List, [], ◌∷◌,
  ◌++◌, if◌then◌else◌, arith,
}
use mathlib.Core.List.{append_assoc}
use fredlib.Threading.Threads.{at_thread}
use fredlib.Threading.FanInPoint
use fredlib.Threading.PausePoint
use fredlib.Threading.PausePoint.Invariant.{is_parked}
use fredlib.Threading.ThreadPool.{
  Place, top, checking, taking, working, leaving, ThreadPool, new_thread_pool, with_pause, with_fan,
  move, ask_pause, recheck_pause, check_stop, take_from, take_task, end_task, leave, push_function,
  stop, Step, asks, stirs, rechecks, checks, takes, ends, leaves, pushes, stops, waits, wakes,
  waits_on, pauses, resumes, main_stirs, pause_tests, resume_tests, Reach, here, later,
}
use fredlib.Threading.ThreadPool.Invariant.{is_finished, is_stopping, Inv, start-Inv}

module _ (n : ℕ) (s : ThreadPool) (inv : Inv n s) where
  asks-Inv :
      (i : ℕ)
      → i < n
      → s.place i ≡ top
      → s.control.pause_point.worker i ≡ PausePoint.running
      → Inv n (ask_pause i s)
  unfolding ask_pause PausePoint.pause_if_required PausePoint.notify_paused
  asks-Inv i lt e w = record {
    pausing = PausePoint.later inv.pausing (PausePoint.asks i lt w);
    fanning = inv.fanning;
    parked = λ j q. ground (arith, inv.parked j);
    counted = λ j. ground (arith, inv.counted j);
    asked = λ j q. ground (arith, inv.asked j);
    in_order = inv.in_order;
  }

  rechecks-Inv :
      (i : ℕ)
      → i < n
      → s.control.pause_point.worker i ≡ PausePoint.woken
      → Inv n (recheck_pause i s)
  unfolding recheck_pause PausePoint.recheck PausePoint.notify_paused
  rechecks-Inv i lt w =
      let e : s.place i ≡ top = inv.parked i (ap is_parked w) in
      record {
        pausing = PausePoint.later inv.pausing (PausePoint.tests i lt w);
        fanning = inv.fanning;
        parked = λ j q. ground (arith, inv.parked j);
        counted = λ j. ground (arith, inv.counted j);
        asked = λ j q. ground (arith, inv.asked j);
        in_order = inv.in_order;
      }

  awake : (i : ℕ) → s.place i ≢ top → is_parked (s.control.pause_point.worker i) ≡ false
  awake i away = elim (Bool-cases (is_parked (s.control.pause_point.worker i))) [
    | inl q ↦ absurd (away (inv.parked i q))
    | inr q ↦ q
  ]

  -- A worker that goes from a place in the loop, where it is not parked, to another one.
  moves-Inv :
      (i : ℕ) (p : Place)
      → is_parked (s.control.pause_point.worker i) ≡ false
      → is_finished (s.place i) ≡ false
      → is_finished p ≡ false
      → (is_stopping p ≡ true → s.control.stopper ≡ true)
      → Inv n (move i p s)
  moves-Inv i p awake busy going may = record {
    pausing = inv.pausing;
    fanning = inv.fanning;
    parked = λ j q. ground (arith, inv.parked j);
    counted = λ j. ground (arith, inv.counted j);
    asked = λ j q. ground (arith, inv.asked j);
    in_order = inv.in_order;
  }

  leaves-Inv : (i : ℕ) → i < n → s.place i ≡ leaving → Inv n (leave i s)
  unfolding leave FanInPoint.done FanInPoint.notify_all
  leaves-Inv i lt e =
      let at_work : s.control.fan_in_point.working i ≡ true =
        inv.counted i ∙ ap (λ p. not (is_finished p)) e in
      record {
        pausing = inv.pausing;
        fanning = FanInPoint.later inv.fanning (FanInPoint.finishes i lt at_work);
        parked = λ j q. ground (arith, inv.parked j);
        counted = λ j. ground (arith, inv.counted j);
        asked = λ j q. ground (arith, inv.asked j, inv.asked i);
        in_order = inv.in_order;
      }

  -- A step of a control point at which no worker moves.
  fans-Inv :
      (f : FanInPoint.FanInPoint → FanInPoint.FanInPoint)
      → FanInPoint.Step n s.control.fan_in_point (f s.control.fan_in_point)
      → ((j : ℕ) → (f s.control.fan_in_point).working j ≡ s.control.fan_in_point.working j)
      → Inv n (with_fan f s)
  fans-Inv f st same = record {
    pausing = inv.pausing;
    fanning = FanInPoint.later inv.fanning st;
    parked = inv.parked;
    counted = λ j. same j ∙ inv.counted j;
    asked = inv.asked;
    in_order = inv.in_order;
  }

  pauses-Inv :
      (f : PausePoint.PausePoint → PausePoint.PausePoint)
      → PausePoint.Step n s.control.pause_point (f s.control.pause_point)
      → ((j : ℕ)
          → is_parked ((f s.control.pause_point).worker j)
            ≡ is_parked (s.control.pause_point.worker j))
      → Inv n (with_pause f s)
  pauses-Inv f st same = record {
    pausing = PausePoint.later inv.pausing st;
    fanning = inv.fanning;
    parked = λ j q. inv.parked j (sym (same j) ∙ q);
    counted = inv.counted;
    asked = inv.asked;
    in_order = inv.in_order;
  }

  stops-Inv : Inv n (stop s)
  unfolding stop
  stops-Inv = record {
    pausing = inv.pausing;
    fanning = inv.fanning;
    parked = inv.parked;
    counted = inv.counted;
    asked = λ j q. refl;
    in_order = inv.in_order;
  }

  pushes-Inv : (task : ℕ) → Inv n (push_function task s)
  unfolding push_function
  pushes-Inv task = record {
    pausing = inv.pausing;
    fanning = inv.fanning;
    parked = inv.parked;
    counted = inv.counted;
    asked = inv.asked;
    in_order =
        sym (append_assoc s.started s.queue (task ∷ [])) ∙ ap (λ r. r ++ task ∷ []) inv.in_order;
  }

  takes-Inv : (i : ℕ) → s.place i ≡ taking → (q : List ℕ) → s.queue ≡ q → Inv n (take_from i q s)
  unfolding take_from
  takes-Inv i e [] none_left = moves-Inv i top (awake i (λ t. cc)) (ap is_finished e) refl (λ q. cc)
  takes-Inv i e (task ∷ rest) more =
      let moved =
        moves-Inv i (working task) (awake i (λ t. cc)) (ap is_finished e) refl (λ q. cc) in
      record {
        pausing = moved.pausing;
        fanning = moved.fanning;
        parked = moved.parked;
        counted = moved.counted;
        asked = moved.asked;
        in_order =
            append_assoc s.started (task ∷ []) rest
            ∙ ap (λ q. s.started ++ q) (sym more)
            ∙ inv.in_order;
      }

  checks-Inv :
      (i : ℕ)
      → s.place i ≡ checking
      → (b : Bool) → s.control.stopper ≡ b
      → Inv n (move i (if b then leaving else taking) s)
  checks-Inv i e true stopping =
      moves-Inv i leaving (awake i (λ t. cc)) (ap is_finished e) refl (λ q. stopping)
  checks-Inv i e false going =
      moves-Inv i taking (awake i (λ t. cc)) (ap is_finished e) refl (λ q. cc)

pub Step-Inv : {n : ℕ} {s t : ThreadPool} → Step n s t → Inv n s → Inv n t
unfolding check_stop take_task end_task FanInPoint.wait PausePoint.pause PausePoint.pause_test
    PausePoint.resume PausePoint.resume_test PausePoint.notify_pause PausePoint.notify_paused
Step-Inv {n} {s} (asks i lt e w) inv = asks-Inv n s inv i lt e w
Step-Inv {n} {s} (stirs i lt w) inv =
    pauses-Inv n s inv (λ p. record p { worker = at_thread i PausePoint.woken p.worker })
      (PausePoint.stirs i lt w) (λ j. ground (arith, ap is_parked w))
Step-Inv {n} {s} (rechecks i lt w) inv = rechecks-Inv n s inv i lt w
Step-Inv {n} {s} (checks i lt e) inv = checks-Inv n s inv i e s.control.stopper refl
Step-Inv {n} {s} (takes i lt e) inv = takes-Inv n s inv i e s.queue refl
Step-Inv {n} {s} (ends i task lt e) inv =
    moves-Inv n s inv i top (awake n s inv i (λ t. cc)) (ap is_finished e) refl (λ q. cc)
Step-Inv {n} {s} (leaves i lt e) inv = leaves-Inv n s inv i lt e
Step-Inv {n} {s} (pushes task) inv = pushes-Inv n s inv task
Step-Inv {n} {s} stops inv = stops-Inv n s inv
Step-Inv {n} {s} (waits j e) inv =
    fans-Inv n s inv (FanInPoint.wait j) (FanInPoint.waits j e) (λ k. ground arith)
Step-Inv {n} {s} (wakes j e) inv =
    fans-Inv n s inv (FanInPoint.waiter_to j FanInPoint.woken) (FanInPoint.wakes j e) (λ k. refl)
Step-Inv {n} {s} (waits_on j e) inv =
    fans-Inv n s inv (FanInPoint.wait j) (FanInPoint.tests j e) (λ k. ground arith)
Step-Inv {n} {s} (pauses e) inv =
    pauses-Inv n s inv PausePoint.pause (PausePoint.pauses e) (λ j. refl)
Step-Inv {n} {s} (resumes e) inv =
    pauses-Inv n s inv PausePoint.resume (PausePoint.resumes e) (λ j. ground arith)
Step-Inv {n} {s} main_stirs inv =
    pauses-Inv n s inv PausePoint.notify_paused PausePoint.main_stirs (λ j. refl)
Step-Inv {n} {s} (pause_tests e) inv =
    pauses-Inv n s inv PausePoint.pause_test (PausePoint.pause_tests e) (λ j. refl)
Step-Inv {n} {s} (resume_tests e) inv =
    pauses-Inv n s inv PausePoint.resume_test (PausePoint.resume_tests e) (λ j. refl)

pub Reach-Inv : {n : ℕ} {s : ThreadPool} → Reach n (new_thread_pool n) s → Inv n s
Reach-Inv {n} here = start-Inv n
Reach-Inv (later r st) = Step-Inv st (Reach-Inv r)

pub Reach-append : {n : ℕ} {s t u : ThreadPool} → Reach n s t → Reach n t u → Reach n s u
Reach-append r here = r
Reach-append r (later q st) = later (Reach-append r q) st

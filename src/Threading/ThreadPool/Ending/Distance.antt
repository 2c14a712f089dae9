-- ===== src/Threading/ThreadPool/Ending/Distance.antt =====
-- How far the workers of `GenericThreadPool` of include/threading.hpp are from their end once they are to stop.
use mathlib.Core.Bool.{false≢true}
use fredlib.Base.{
  ℕ, zero, suc, ◌+◌, ◌*◌, ◌<◌, ◌≤◌, ◌≡◌, ◌≢◌, refl, sym, ap, ◌∙◌, Bool, true, false, arith, List,
  [], ◌∷◌, ◌==◌, ==_iff, subst, Bool-cases, inl, inr,
}
use fredlib.Threading.Threads.{at_thread}
use fredlib.Threading.FanInPoint
use fredlib.Threading.PausePoint
use fredlib.Threading.PausePoint.{Worker, running, asleep, woken}
use fredlib.Threading.PausePoint.Handshake
use fredlib.Threading.PausePoint.Invariant.{is_parked}
use fredlib.Threading.ThreadPool.{
  Place, top, checking, taking, working, leaving, finished, ThreadPool, Step, asks, stirs, rechecks,
  checks, takes, ends, leaves, pushes, stops, waits, wakes, waits_on, pauses, resumes, main_stirs,
  pause_tests, resume_tests, ask_pause, recheck_pause, check_stop, take_from, take_task, end_task,
  leave, push_function, stop,
}
use fredlib.Threading.ThreadPool.Invariant.{Inv}
use fredlib.Threading.ThreadPool.Ending.{by_worker, is_pause, Asked}

-- The steps that a worker has before it at most, once it is to stop.
abbrev pub distance : Place → Worker → ℕ
distance finished w = 0
distance leaving w = 1
distance checking w = 2
distance top running = 3
distance top woken = 4
distance top asleep = 5
distance (working task) w = 4
distance taking w = 5

abbrev pub far : ThreadPool → ℕ → ℕ
far s i = distance (s.place i) (s.control.pause_point.worker i)

unfoldable pub total : ℕ → (ℕ → ℕ) → ℕ
total zero f = 0
total (suc n) f = f n + total n f

pub total-le : (n : ℕ) (f g : ℕ → ℕ) → ((i : ℕ) → g i ≤ f i) → total n g ≤ total n f
unfolding total
total-le zero f g h = omega arith
total-le (suc n) f g h = omega (arith, h n, total-le n f g h)

pub total-less :
    (n : ℕ) (f g : ℕ → ℕ)
    → ((i : ℕ) → g i ≤ f i)
    → (i : ℕ) → i < n
    → g i < f i
    → total n g < total n f
unfolding total
total-less zero f g h i lt less = absurd (omega arith)
total-less (suc n) f g h i lt less = elim (Bool-cases (i == n)) [
  | inl hit ↦
      let e = (==_iff i n).0 hit in
      let less' : g n < f n = subst (λ k. g k < f k) e less in omega (arith, total-le n f g h)
  | inr miss ↦ let rest = total-less n f g h i (ground arith) less in omega (arith, h n)
]

pub total-bound : (n : ℕ) (f : ℕ → ℕ) → ((i : ℕ) → f i ≤ 5) → total n f ≤ 5 * n
unfolding total
total-bound zero f h = omega arith
total-bound (suc n) f h = omega (arith, h n, total-bound n f h)

pub distance-le : (p : Place) (w : Worker) → distance p w ≤ 5
distance-le finished w = omega arith
distance-le leaving w = omega arith
distance-le checking w = omega arith
distance-le top running = omega arith
distance-le top woken = omega arith
distance-le top asleep = omega arith
distance-le (working task) w = omega arith
distance-le taking w = omega arith

distance-wake : (p : Place) (w : Worker) → distance p (PausePoint.wake w) ≤ distance p w
distance-wake p running = omega arith
distance-wake p woken = omega arith
distance-wake top asleep = omega arith
distance-wake finished asleep = omega arith
distance-wake leaving asleep = omega arith
distance-wake checking asleep = omega arith
distance-wake (working task) asleep = omega arith
distance-wake taking asleep = omega arith

-- No worker gets farther from its end, and the one that makes a step gets nearer.
pub record Nearer (n : ℕ) (s t : ThreadPool) (b : Bool) : Type 0 where
  pub asked : Asked t
  pub never : (j : ℕ) → far t j ≤ far s j
  pub less : b ≡ true → (i : ℕ) × (i < n) × (far t i < far s i)

-- The worker `i` has `d` steps before it afterwards.
Moved-Nearer :
    (n : ℕ) (s : ThreadPool) (i d : ℕ) (t : ThreadPool)
    → i < n
    → Asked t
    → d < far s i
    → ((j : ℕ) → far t j ≡ at_thread i d (far s) j)
    → Nearer n s t true
Moved-Nearer n s i d t lt asked near same = record {
  asked = asked;
  never = λ j. ground (arith, same j);
  less = λ _. (i, lt, ground (arith, same i));
}

-- Nobody moves.
Stayed-Nearer :
    (n : ℕ) (s t : ThreadPool)
    → Asked t
    → t.place ≡ s.place
    → t.control.pause_point.worker ≡ s.control.pause_point.worker
    → Nearer n s t false
Stayed-Nearer n s t asked e f = record {
  asked = asked;
  never = λ j. subst (λ d. d ≤ far s j) (sym (same j)) (omega arith);
  less = λ no. absurd (false≢true no);
}
  where
    same : (j : ℕ) → far t j ≡ far s j
    same j = cc (ap (λ g. g j) e, ap (λ g. g j) f)

-- A worker that is not at the top of its loop is not parked.
pub away-running :
    {n : ℕ} {s : ThreadPool}
    → Inv n s
    → (i : ℕ) → s.place i ≢ top
    → s.control.pause_point.worker i ≡ running
away-running {n} {s} inv i away =
    Handshake.unparked (s.control.pause_point.worker i)
      (elim (Bool-cases (is_parked (s.control.pause_point.worker i))) [
        | inl parked ↦ absurd (away (inv.parked i parked))
        | inr free ↦ free
      ])

taken-Nearer :
    (n : ℕ) (s : ThreadPool) (i : ℕ)
    → i < n
    → Inv n s
    → Asked s
    → s.place i ≡ taking
    → Nearer n s (take_task i s) true
unfolding take_task
taken-Nearer n s i lt inv asked e = taken_from s.queue
  where
    runs : s.control.pause_point.worker i ≡ running
    runs = away-running inv i (λ at. cc (sym at ∙ e))

    taken_from : (q : List ℕ) → Nearer n s (take_from i q s) true
    taken_from [] = Moved-Nearer n s i 3 _ lt asked (ground arith) (λ j. ground (arith, runs))
    taken_from (task ∷ q) = Moved-Nearer n s i 4 _ lt asked (ground arith) (λ j. ground arith)

-- What each step does to the distances.
pub Step-Nearer :
    {n : ℕ} {s t : ThreadPool} (st : Step n s t)
    → Inv n s
    → Asked s
    → is_pause st ≡ false
    → Nearer n s t (by_worker st)
unfolding ask_pause PausePoint.pause_if_required recheck_pause PausePoint.recheck check_stop
    end_task leave push_function stop FanInPoint.done FanInPoint.wait PausePoint.resume
    PausePoint.resume_test PausePoint.pause_test PausePoint.notify_paused PausePoint.notify_pause
Step-Nearer {n} {s} (asks i lt e w) inv (set, clear) np =
    Moved-Nearer n s i 2 _ lt (ground arith) (ground arith) (λ j. ground arith)
Step-Nearer {n} {s} (stirs i lt w) inv (set, clear) np =
    let e = inv.parked i (ap is_parked w) in
    Moved-Nearer n s i 4 _ lt (set, clear) (ground arith) (λ j. ground arith)
Step-Nearer {n} {s} (rechecks i lt w) inv (set, clear) np =
    let e = inv.parked i (ap is_parked w) in
    Moved-Nearer n s i 2 _ lt (ground arith) (ground arith) (λ j. ground arith)
Step-Nearer {n} {s} (checks i lt e) inv (set, clear) np =
    Moved-Nearer n s i 1 _ lt (set, clear) (ground arith) (λ j. ground arith)
Step-Nearer {n} {s} (takes i lt e) inv asked np = taken-Nearer n s i lt inv asked e
Step-Nearer {n} {s} (ends i task lt e) inv (set, clear) np =
    let runs = away-running inv i (λ at. cc (sym at ∙ e)) in
    Moved-Nearer n s i 3 _ lt (set, clear) (ground arith) (λ j. ground arith)
Step-Nearer {n} {s} (leaves i lt e) inv (set, clear) np =
    Moved-Nearer n s i 0 _ lt (set, clear) (ground arith) (λ j. ground arith)
Step-Nearer {n} {s} (pushes task) inv asked np = Stayed-Nearer n s _ asked refl refl
Step-Nearer {n} {s} stops inv (set, clear) np = Stayed-Nearer n s _ (refl, clear) refl refl
Step-Nearer {n} {s} (waits j e) inv asked np = Stayed-Nearer n s _ asked refl refl
Step-Nearer {n} {s} (wakes j e) inv asked np = Stayed-Nearer n s _ asked refl refl
Step-Nearer {n} {s} (waits_on j e) inv asked np = Stayed-Nearer n s _ asked refl refl
Step-Nearer {n} {s} (pauses e) inv asked np = absurd (false≢true (sym np))
Step-Nearer {n} {s} (resumes e) inv (set, clear) np = record {
  asked = (set, refl);
  never = λ j. distance-wake (s.place j) (s.control.pause_point.worker j);
  less = λ no. absurd (false≢true no);
}
Step-Nearer {n} {s} main_stirs inv asked np = Stayed-Nearer n s _ asked refl refl
Step-Nearer {n} {s} (pause_tests e) inv asked np = Stayed-Nearer n s _ asked refl refl
Step-Nearer {n} {s} (resume_tests e) inv asked np = Stayed-Nearer n s _ asked refl refl

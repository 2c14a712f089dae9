-- ===== src/Threading/ThreadPool/Growing/Invariant.antt =====
-- The counts of include/threading.hpp's `GenericThreadPool` in every state that it reaches while threads are added.
use mathlib.Core.Bool.{false≢true}
use fredlib.Base.{ℕ, suc, ◌+◌, ◌≡◌, refl, sym, ap, ◌∙◌, subst, true, false, not, arith}
use fredlib.Base.Int.{pos, ◌+ℤ◌, ◌-ℤ◌, -ℤ_pos, +ℤ_pos}
use fredlib.Threading.Threads.{bit, how_many, how_many-suc, how_many-none}
use fredlib.Threading.FanInPoint
use fredlib.Threading.FanInPoint.Gate.{is}
use fredlib.Threading.PausePoint
use fredlib.Threading.PausePoint.Invariant.{is_parked}
use fredlib.Threading.ThreadPool
use fredlib.Threading.ThreadPool.{
  Place, top, working, finished, ThreadPool, new_thread_pool, with_fan, with_pause,
}
use fredlib.Threading.ThreadPool.Growing.{
  Growing, threads, no_threads, Adding, settled, started, sync_counted, fan_counted, is_adding,
  is_fan_late, start_thread, count_sync, count_fan, count_pause, Step, starts, counts_sync,
  counts_fan, counts_pause, acts, Reach, here, later,
}
use fredlib.Threading.ThreadPool.Growing.Counts.{owed}
use fredlib.Threading.ThreadPool.Growing.Steps.{Counts, Step-Counts}

-- The invariant.
abbrev pub Counted : Growing → Type 0
Counted g = Counts (threads g.counted (is_adding g.adding)) g.counted (is_fan_late g.adding) g.pool

no_threads-Counted : Counted no_threads
unfolding no_threads new_thread_pool ThreadPool.add_threads
no_threads-Counted = record {
  fan = ap pos (sym (how_many-none is 0 (λ _. true) (λ i lt. absurd (omega arith))));
  pauses = (
    ap pos
        (sym (how_many-none is_parked 0 (λ _. PausePoint.running) (λ i lt. absurd (omega arith)))),
    refl,
  );
  at_work = λ i. refl;
  parked = λ i q. absurd (false≢true q);
  fresh = λ i le. (refl, refl);
}

-- A worker is started.
started-Counts : (c : ℕ) (s : ThreadPool) → Counts c c false s → Counts (suc c) c true s
started-Counts c s k =
    let (busy, running) = k.fresh c (omega arith) in
    let u = how_many is c s.control.fan_in_point.working in
    let one_more : how_many is (suc c) s.control.fan_in_point.working ≡ suc u =
      how_many-suc is c s.control.fan_in_point.working
      ∙ ap (λ b. bit b + u) (k.at_work c ∙ ap not busy)
      ∙ omega arith in
    let parked = how_many is_parked c s.control.pause_point.worker in
    let same : how_many is_parked (suc c) s.control.pause_point.worker ≡ parked =
      how_many-suc is_parked c s.control.pause_point.worker
      ∙ ap (λ b. bit b + parked) running
      ∙ omega arith in
    record {
      fan =
          k.fan
          ∙ ap pos (omega arith)
          ∙ sym (-ℤ_pos (suc u) 1 (omega arith))
          ∙ ap (owed true) (sym one_more);
      pauses = (k.pauses.0 ∙ ap pos (sym same), k.pauses.1);
      at_work = k.at_work;
      parked = k.parked;
      fresh = λ i le. k.fresh i (omega arith);
    }

owed-counted : (u : ℕ) → owed true u +ℤ pos 1 ≡ pos u
unfolding ◌+ℤ◌ ◌-ℤ◌
owed-counted u = ground arith

fan-Counts :
    (n c : ℕ) (s : ThreadPool)
    → Counts n c true s
    → Counts n c false (with_fan (FanInPoint.add_thread (pos 1)) s)
unfolding FanInPoint.add_thread
fan-Counts n c s k = record {
  fan = ap (λ x. x +ℤ pos 1) k.fan ∙ owed-counted (how_many is n s.control.fan_in_point.working);
  pauses = k.pauses;
  at_work = k.at_work;
  parked = k.parked;
  fresh = k.fresh;
}

pause-Counts :
    (n c : ℕ) (s : ThreadPool)
    → Counts n c false s
    → Counts n (suc c) false (with_pause (PausePoint.add_thread (pos 1)) s)
unfolding PausePoint.add_thread
pause-Counts n c s k = record {
  fan = k.fan;
  pauses = (k.pauses.0, ap (λ x. x +ℤ pos 1) k.pauses.1 ∙ +ℤ_pos c 1 ∙ ap pos (omega arith));
  at_work = k.at_work;
  parked = k.parked;
  fresh = k.fresh;
}

-- The invariant, with the thread that adds at a known place.
pub at_adding :
    {g : Growing} (a : Adding)
    → g.adding ≡ a
    → Counted g
    → Counts (threads g.counted (is_adding a)) g.counted (is_fan_late a) g.pool
at_adding {g} a e k =
    subst (λ a. Counts (threads g.counted (is_adding a)) g.counted (is_fan_late a) g.pool) e k

GrowingStep-Counted : {g h : Growing} → Step g h → Counted g → Counted h
unfolding start_thread count_sync count_fan count_pause
GrowingStep-Counted {g} (starts e) k = started-Counts g.counted g.pool (at_adding settled e k)
GrowingStep-Counted {g} (counts_sync e) k =
    let k' = at_adding started e k in
    record {
      fan = k'.fan;
      pauses = k'.pauses;
      at_work = k'.at_work;
      parked = k'.parked;
      fresh = k'.fresh;
    }
GrowingStep-Counted {g} (counts_fan e) k =
    fan-Counts (suc g.counted) g.counted g.pool (at_adding sync_counted e k)
GrowingStep-Counted {g} (counts_pause e) k =
    pause-Counts (suc g.counted) g.counted g.pool (at_adding fan_counted e k)
GrowingStep-Counted {g} (acts st) k = Step-Counts g.counted (is_fan_late g.adding) st k

pub Reach-Counted : {g : Growing} → Reach no_threads g → Counted g
Reach-Counted here = no_threads-Counted
Reach-Counted (later r st) = GrowingStep-Counted st (Reach-Counted r)

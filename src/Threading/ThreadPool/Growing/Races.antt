-- ===== src/Threading/ThreadPool/Growing/Races.antt =====
-- What the counts of include/threading.hpp's `GenericThreadPool` tell while threads are added.
use fredlib.Base.{
  ℕ, suc, ◌<◌, ◌≡◌, ◌≢◌, refl, sym, ap, ◌∙◌, subst, Bool, true, false, not, arith, Bool-cases, ◌==◌,
  ==_iff, inl, inr, if◌then◌else◌,
}
use fredlib.Base.Int.{pos, ◌-ℤ◌, eq_ℤ}
use fredlib.Threading.Threads.{
  bit, at_thread, how_many, how_many-every, how_many-at_thread, how_many_same, how_many-all,
}
use fredlib.Threading.FanInPoint
use fredlib.Threading.FanInPoint.Gate.{is}
use fredlib.Threading.PausePoint
use fredlib.Threading.PausePoint.Invariant.{is_parked}
use fredlib.Threading.ThreadPool.{top, ThreadPool}
use fredlib.Threading.ThreadPool.Invariant.{is_finished}
use fredlib.Threading.ThreadPool.Growing.{
  Growing, threads, no_threads, settled, fan_counted, is_adding, is_fan_late, count_pause,
  counts_pause, Reach, later,
}
use fredlib.Threading.ThreadPool.Growing.Counts.{owed}
use fredlib.Threading.ThreadPool.Growing.Invariant.{at_adding, Reach-Counted}

-- How many of the first `n` workers have not finished, and how many are parked in `pauseIfRequred`.
abbrev pub unfinished : ℕ → ThreadPool → ℕ
unfinished n s = how_many (λ p. not (is_finished p)) n s.place

abbrev pub parked_workers : ℕ → ThreadPool → ℕ
parked_workers n s = how_many is_parked n s.control.pause_point.worker

test_owed : (a : Bool) (u : ℕ) → eq_ℤ (owed a u) (pos 0) ≡ (u == bit a)
unfolding ◌-ℤ◌
test_owed true u = ground arith
test_owed false u = ground arith

test_pos : (a b : ℕ) → eq_ℤ (pos a) (pos b) ≡ (a == b)
test_pos a b = ground arith

wait_at :
    (b : Bool) (j : ℕ) (f : FanInPoint.FanInPoint)
    → (if b
          then FanInPoint.waiter_to j FanInPoint.returned f
          else FanInPoint.waiter_to j FanInPoint.asleep f).waiter
        j
      ≡ (if b then FanInPoint.returned else FanInPoint.asleep)
wait_at true j f = ground arith
wait_at false j f = ground arith

-- In every state that a `GenericThreadPool` reaches while it adds threads, each of which runs
-- before the control points count it, one point after the other: the test in the wait of `stop`
-- succeeds just if as many workers have not finished as are started and not counted by the fan-in
-- point, of which there is one at most; and the test in `pause` succeeds just if as many workers
-- are parked as the pause point has counted.
pub add_thread-tests :
    {g : Growing}
    → Reach no_threads g
    → (j : ℕ)
    → ((FanInPoint.wait j g.pool.control.fan_in_point).waiter j ≡ (
        if unfinished (threads g.counted (is_adding g.adding)) g.pool == bit (is_fan_late g.adding)
        then FanInPoint.returned
        else FanInPoint.asleep))
      × ((PausePoint.pause_test g.pool.control.pause_point).main ≡ (
          if parked_workers (threads g.counted (is_adding g.adding)) g.pool == g.counted
          then PausePoint.holding
          else PausePoint.pausing_asleep))
unfolding FanInPoint.wait PausePoint.pause_test
add_thread-tests {g} r j =
    let k = Reach-Counted r in
    let n = threads g.counted (is_adding g.adding) in
    let same : how_many is n g.pool.control.fan_in_point.working ≡ unfinished n g.pool =
      how_many_same is (λ p. not (is_finished p)) n g.pool.control.fan_in_point.working g.pool.place
        k.at_work in
    (
      wait_at (eq_ℤ g.pool.control.fan_in_point.expected (pos 0)) j g.pool.control.fan_in_point
          ∙ ap (λ b. if b then FanInPoint.returned else FanInPoint.asleep)
              (ap (λ e. eq_ℤ e (pos 0)) k.fan
                ∙ test_owed (is_fan_late g.adding) _
                ∙ ap (λ u. u == bit (is_fan_late g.adding)) same),
      ap (λ b. if b then PausePoint.holding else PausePoint.pausing_asleep)
          (ap (λ e. eq_ℤ e g.pool.control.pause_point.expected) k.pauses.0
            ∙ ap (eq_ℤ (pos (parked_workers n g.pool))) k.pauses.1
            ∙ test_pos (parked_workers n g.pool) g.counted),
    )

pause_test-at :
    {g : Growing}
    → Reach no_threads g
    → (a : Bool) → is_adding g.adding ≡ a
    → (PausePoint.pause_test g.pool.control.pause_point).main ≡ (
        if parked_workers (threads g.counted a) g.pool == g.counted
        then PausePoint.holding
        else PausePoint.pausing_asleep)
pause_test-at {g} r a e =
    subst
      (λ a. (PausePoint.pause_test g.pool.control.pause_point).main ≡ (
        if parked_workers (threads g.counted a) g.pool == g.counted
        then PausePoint.holding
        else PausePoint.pausing_asleep))
      e (add_thread-tests r 0).1

abbrev holding_if : Bool → PausePoint.Main
holding_if b = if b then PausePoint.holding else PausePoint.pausing_asleep

holding_if-true : (b : Bool) → holding_if b ≡ PausePoint.holding → b ≡ true
holding_if-true true e = refl
holding_if-true false e = absurd (cc e)

-- In a state that a `GenericThreadPool` reaches while no thread is in `_add_thread`: if the test in `pause`
-- succeeds, every worker is at the top of its loop.
pub add_thread-settled :
    {g : Growing}
    → Reach no_threads g
    → g.adding ≡ settled
    → (PausePoint.pause_test g.pool.control.pause_point).main ≡ PausePoint.holding
    → (i : ℕ) → i < g.counted
    → g.pool.place i ≡ top
add_thread-settled {g} r rests holds i lt =
    let k = at_adding settled rests (Reach-Counted r) in
    let all : (parked_workers g.counted g.pool == g.counted) ≡ true =
      holding_if-true _ (sym (pause_test-at r false (ap is_adding rests)) ∙ holds) in
    k.parked i
      (how_many-all is_parked g.counted g.pool.control.pause_point.worker i ((==_iff _ _).0 all) lt)

-- In a state that a `GenericThreadPool` reaches in which a thread has been started that the pause
-- point has not counted yet, and in which all its workers but one are parked: the test in `pause`
-- succeeds, though that one, which may run a task, is not parked.
pub pause-early :
    {g : Growing}
    → Reach no_threads g
    → is_adding g.adding ≡ true
    → (i : ℕ) → i < suc g.counted
    → is_parked (g.pool.control.pause_point.worker i) ≡ false
    → ((j : ℕ) → j < suc g.counted → j ≢ i → is_parked (g.pool.control.pause_point.worker j) ≡ true)
    → (PausePoint.pause_test g.pool.control.pause_point).main ≡ PausePoint.holding
pause-early {g} r late i lt free others =
    let n = suc g.counted in
    let w = g.pool.control.pause_point.worker in
    let full : how_many is_parked n (at_thread i PausePoint.asleep w) ≡ n =
      how_many-every is_parked n (at_thread i PausePoint.asleep w) (λ j lj.
        elim (Bool-cases (j == i)) [
          | inl hit ↦ rw hit refl
          | inr miss ↦ rw miss (others j lj (ground arith))
        ]) in
    let all_but_one : how_many is_parked n w ≡ g.counted =
      omega (arith, how_many-at_thread is_parked n w i PausePoint.asleep lt, full, ap bit free) in
    pause_test-at r true late ∙ ap holding_if ((==_iff _ _).1 all_but_one)

-- If `pause` sleeps in a state that a `GenericThreadPool` reaches in which all its workers are
-- parked and one of them is not counted by the pause point yet: `pause` still sleeps once that one
-- is counted, though its test would succeed then. The count wakes nobody.
pub pause-unwoken :
    {g : Growing}
    → Reach no_threads g
    → g.adding ≡ fan_counted
    → g.pool.control.pause_point.main ≡ PausePoint.pausing_asleep
    → ((j : ℕ) → j < suc g.counted → is_parked (g.pool.control.pause_point.worker j) ≡ true)
    → ((count_pause g).pool.control.pause_point.main ≡ PausePoint.pausing_asleep)
      × ((PausePoint.pause_test (count_pause g).pool.control.pause_point).main ≡ PausePoint.holding)
unfolding count_pause PausePoint.add_thread
pause-unwoken {g} r late asleep all =
    let full = how_many-every is_parked (suc g.counted) g.pool.control.pause_point.worker all in
    (
      asleep,
      pause_test-at (later r (counts_pause late)) false refl ∙ ap holding_if ((==_iff _ _).1 full),
    )

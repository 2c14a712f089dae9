-- ===== src/Utils/Time/Elapsed.antt =====
-- What the timers of include/time.hpp measure.
use fredlib.Base.{ℕ, ◌+◌, ◌-◌, ◌*◌, ◌/◌, ◌^◌, ◌<◌, ◌≤◌, ◌≡◌, false, ltb, arith}
use native.Mathlib.Nat.{mod-eq_of_lt, div-le_self}
use fredlib.Base.Int.{pos}
use fredlib.Utils.Time.{
  timer_start, count_since, secconds_elapsed_since, ms_elapsed_since, us_elapsed_since, Sleeper,
  sleep_ms,
}

count_since-forward :
    (unit start now : ℕ)
    → 0 < unit
    → start ≤ now
    → now < 2 ^ 64
    → count_since unit start now ≡ (now - start) / unit
unfolding count_since
count_since-forward unit start now some le small =
    let forward : ltb now start ≡ false = ground arith in
    rw forward (mod-eq_of_lt (omega (arith, div-le_self (now - start) unit)))

-- For a start that is not after now, and clocks below 2 ^ 64: the milliseconds and the seconds elapsed are
-- the microseconds and the milliseconds, rounded down, and the microseconds are the time, rounded down.
pub elapsed-units :
    (start now : ℕ)
    → start ≤ now
    → now < 2 ^ 64
    → (ms_elapsed_since start now ≡ us_elapsed_since start now / 1000)
      × (secconds_elapsed_since start now ≡ ms_elapsed_since start now / 1000)
      × (us_elapsed_since start now * 1000 ≤ now - start)
      × (now - start < (us_elapsed_since start now + 1) * 1000)
unfolding ms_elapsed_since us_elapsed_since secconds_elapsed_since
elapsed-units start now le small =
    rw
      (
        count_since-forward 1_000 start now (omega arith) le small,
        count_since-forward 1_000_000 start now (omega arith) le small,
        count_since-forward 1_000_000_000 start now (omega arith) le small,
      )
      (omega arith, omega arith, omega arith, omega arith)

-- A sleep of `m` milliseconds that ends before the clock reaches 2 ^ 64 takes, as the timer measures it, `m`
-- milliseconds at least.
pub sleep-elapsed :
    (os : Sleeper) (m now : ℕ)
    → sleep_ms os (pos m) now < 2 ^ 64
    → m ≤ ms_elapsed_since (timer_start now) (sleep_ms os (pos m) now)
unfolding ms_elapsed_since timer_start sleep_ms
sleep-elapsed os m now small =
    let late = os.long_enough (m * 1_000_000) now in
    rw
      (count_since-forward 1_000_000 now (os.sleep_for (pos (m * 1_000_000)) now) (omega arith)
        (omega (arith, late)) small)
      (omega (arith, late))

-- ===== src/Utils/Time.antt =====
-- include/time.hpp: timers and sleeps. Times of the steady clock and durations are nanoseconds.
pub mod Elapsed
use fredlib.Base.{ℕ, ◌+◌, ◌-◌, ◌*◌, ◌/◌, ◌%◌, ◌^◌, ◌≤◌, ltb, if◌then◌else◌}
use fredlib.Base.Int.{ℤ, pos, negsuc}

-- `timer_start`, when the clock shows `now`.
unfoldable pub timer_start : (now : ℕ) → ℕ
timer_start now = now

-- `duration_cast` of `end - start` to a unit of `unit` nanoseconds, rounded towards zero, as a
-- `size_t`, where a negative count wraps.
unfoldable pub count_since : (unit start now : ℕ) → ℕ
count_since unit start now =
    if ltb now start
    then (2 ^ 64 - (start - now) / unit % 2 ^ 64) % 2 ^ 64
    else (now - start) / unit % 2 ^ 64

unfoldable pub secconds_elapsed_since : (start now : ℕ) → ℕ
unfolding count_since
secconds_elapsed_since start now = count_since 1_000_000_000 start now

unfoldable pub ms_elapsed_since : (start now : ℕ) → ℕ
unfolding count_since
ms_elapsed_since start now = count_since 1_000_000 start now

unfoldable pub us_elapsed_since : (start now : ℕ) → ℕ
unfolding count_since
us_elapsed_since start now = count_since 1_000 start now

-- The operating system: what the clock shows after `std::this_thread::sleep_for`. A thread sleeps at
-- least as long as it asked for, and the clock does not run backwards.
pub record Sleeper : Type 0 where
  pub sleep_for : (nanoseconds : ℤ) (now : ℕ) → ℕ
  pub long_enough : (d now : ℕ) → now + d ≤ sleep_for (pos d) now
  pub steady : (d : ℤ) (now : ℕ) → now ≤ sleep_for d now

abbrev pub times : ℕ → ℤ → ℤ
times unit (pos n) = pos (n * unit)
times unit (negsuc n) = negsuc (n * unit + unit - 1)

unfoldable pub sleep_s : Sleeper → ℤ → ℕ → ℕ
sleep_s os sec now = os.sleep_for (times 1_000_000_000 sec) now

unfoldable pub sleep_ms : Sleeper → ℤ → ℕ → ℕ
sleep_ms os ms now = os.sleep_for (times 1_000_000 ms) now

unfoldable pub sleep_us : Sleeper → ℤ → ℕ → ℕ
sleep_us os us now = os.sleep_for (times 1_000 us) now

unfoldable pub sleep_ns : Sleeper → ℤ → ℕ → ℕ
sleep_ns os ns now = os.sleep_for ns now

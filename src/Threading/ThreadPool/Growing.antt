-- ===== src/Threading/ThreadPool/Growing.antt =====
-- include/threading.hpp, `GenericThreadPool` while threads are added: `_add_thread` starts a worker, which runs,
-- before it counts it.
pub mod Counts
pub mod Steps
pub mod Invariant
pub mod Races
mod Tests
use fredlib.Base.{ℕ, suc, ◌≡◌, Bool, true, false, if◌then◌else◌}
use fredlib.Base.Int.{pos}
use fredlib.Threading.SyncPoint
use fredlib.Threading.FanInPoint
use fredlib.Threading.PausePoint
use fredlib.Threading.ThreadPool
use fredlib.Threading.ThreadPool.{ThreadPool, new_thread_pool, with_fan, with_pause}

-- Where the thread stands that is in `_add_thread`.
pub data Adding : Type 0 where
  settled : Adding  -- no thread is
  started : Adding  -- before `SyncPoint::add_thread`
  sync_counted : Adding
  fan_counted : Adding  -- before `PausePoint::add_thread`

abbrev pub is_adding : Adding → Bool
is_adding settled = false
is_adding a = true

-- The thread is started and the fan-in point does not count it.
abbrev pub is_fan_late : Adding → Bool
is_fan_late started = true
is_fan_late sync_counted = true
is_fan_late a = false

-- `counted` threads have been added, and one more has been started while `adding` is not `settled`.
pub record Growing : Type 0 where
  pub pool : ThreadPool
  pub counted : ℕ
  pub adding : Adding

-- `_vecThreads.size()`
abbrev pub threads : ℕ → Bool → ℕ
threads counted adding = if adding then suc counted else counted

-- The constructor before its loop, which calls `_add_thread`.
unfoldable pub no_threads : Growing
no_threads = record { pool = new_thread_pool 0; counted = 0; adding = settled }

-- `_vecThreads.emplace_back`
unfoldable pub start_thread : Growing → Growing
start_thread g = record g { adding = started }

-- `_tc.add_thread()`, a point at a time.
unfoldable pub count_sync : Growing → Growing
count_sync g = record g {
  pool = record g.pool {
    control = record g.pool.control {
      sync_point = SyncPoint.add_thread (pos 1) g.pool.control.sync_point;
    };
  };
  adding = sync_counted;
}

unfoldable pub count_fan : Growing → Growing
count_fan g = record g {
  pool = with_fan (FanInPoint.add_thread (pos 1)) g.pool;
  adding = fan_counted;
}

unfoldable pub count_pause : Growing → Growing
count_pause g = record {
  pool = with_pause (PausePoint.add_thread (pos 1)) g.pool;
  counted = suc g.counted;
  adding = settled;
}

-- A step of the thread that adds threads, of which there is one at a time, or of another one.
pub data Step (g : Growing) : Growing → Type 0 where
  starts : g.adding ≡ settled → Step g (start_thread g)
  counts_sync : g.adding ≡ started → Step g (count_sync g)
  counts_fan : g.adding ≡ sync_counted → Step g (count_fan g)
  counts_pause : g.adding ≡ fan_counted → Step g (count_pause g)
  acts :
      {t : ThreadPool}
      → ThreadPool.Step (threads g.counted (is_adding g.adding)) g.pool t
      → Step g (record g { pool = t })

pub data Reach (g : Growing) : Growing → Type 0 where
  here : Reach g g
  later : {h k : Growing} → Reach g h → Step h k → Reach g k

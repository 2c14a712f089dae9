-- ===== src/Threading/ThreadControl.antt =====
-- include/threading.hpp, `class ThreadControl`: a sync, a fan-in and a pause point with one count, and
-- a flag that asks the threads to stop.
pub mod Counts
use fredlib.Base.{Bool, true, false}
use fredlib.Base.Int.{ℤ}
use fredlib.Threading.SyncPoint
use fredlib.Threading.FanInPoint
use fredlib.Threading.PausePoint

pub record ThreadControl : Type 0 where
  pub sync_point : SyncPoint.SyncPoint
  pub fan_in_point : FanInPoint.FanInPoint
  pub pause_point : PausePoint.PausePoint
  pub stopper : Bool

-- The constructor.
abbrev pub new_thread_control : ℤ → ThreadControl
new_thread_control expected = record {
  sync_point = SyncPoint.new_sync_point expected;
  fan_in_point = FanInPoint.new_fan_in_point expected;
  pause_point = PausePoint.new_pause_point expected;
  stopper = false;
}

unfoldable pub initialize : ℤ → ThreadControl → ThreadControl
initialize expected c = record c {
  sync_point = SyncPoint.initialize expected c.sync_point;
  fan_in_point = FanInPoint.initialize expected c.fan_in_point;
  pause_point = PausePoint.initialize expected c.pause_point;
}

unfoldable pub add_thread : ℤ → ThreadControl → ThreadControl
unfolding SyncPoint.add_thread FanInPoint.add_thread PausePoint.add_thread
add_thread num c = record c {
  sync_point = SyncPoint.add_thread num c.sync_point;
  fan_in_point = FanInPoint.add_thread num c.fan_in_point;
  pause_point = PausePoint.add_thread num c.pause_point;
}

unfoldable pub set_threadnum : ℤ → ThreadControl → ThreadControl
set_threadnum num c = record c {
  sync_point = SyncPoint.set_threadnum num c.sync_point;
  fan_in_point = FanInPoint.set_threadnum num c.fan_in_point;
  pause_point = PausePoint.set_threadnum num c.pause_point;
}

-- `stop` up to its call of `FanInPoint::wait`.
abbrev pub request_stop : ThreadControl → ThreadControl
request_stop c = record c { stopper = true }

-- `stopRequired`
abbrev pub stop_required : ThreadControl → Bool
stop_required c = c.stopper

-- ===== src/Examples/ThreadingDemo/Promises.antt =====
-- What the wait of `faninpoint_demo` of examples/threading.cpp comes to.
use fredlib.Base.{ℕ, ◌<◌, ◌≡◌, ◌≢◌, refl, ap, true, false, some, [], ◌∷◌, arith}
use fredlib.Base.Int.{pos}
use fredlib.Threading.FanInPoint
use fredlib.Threading.FanInPoint.Gate
use fredlib.Threading.PausePoint
use fredlib.Threading.ThreadControl.{ThreadControl, new_thread_control}
use fredlib.Threading.Program.{
  is_done, sleeps, starts, waits, joins, System, with_fan, goes, worker_section, worker_step, works,
  Reach,
}
use fredlib.Threading.Program.Points.{dones, to_start, Inv}
use fredlib.Threading.Program.Invariant.{Step-Inv, launch-Inv, Reach-Inv}
use fredlib.Examples.ThreadingDemo.{nthreads, faninpoint_demo}

faninpoint-Inv : Inv nthreads (new_thread_control (pos 0)) faninpoint_demo
unfolding faninpoint_demo to_start dones
faninpoint-Inv =
    launch-Inv nthreads (new_thread_control (pos 0)) (sleeps ∷ is_done ∷ [])
      (starts nthreads ∷ waits ∷ joins ∷ []) false 0 (omega arith) (omega arith) (λ i. refl)
      (λ i. refl)

-- The points may be taken as they are now for the start.
restart : {n : ℕ} {c : ThreadControl} {s : System} → Inv n c s → Inv n s.control s
restart inv = record {
  pausing = PausePoint.here;
  fanning = FanInPoint.here;
  room = inv.room;
  parked = inv.parked;
  once = inv.once;
}

-- In a state of `faninpoint_demo` in which the count is 0, a started thread is about to call
-- `done` and the wait has not returned: a call of `wait` made now returns although that thread has
-- not called `done`; and in every state that is reached from the `done` of that thread on, the
-- wait has not returned.
pub faninpoint_demo-early :
    (me : ℕ) {s t : System}
    → Reach me faninpoint_demo s
    → s.control.fan_in_point.expected ≡ pos 0
    → (i : ℕ) → i < s.started
    → s.code i ≡ is_done ∷ []
    → s.control.fan_in_point.waiter me ≢ FanInPoint.returned
    → Reach me (goes i [] (with_fan (FanInPoint.done i) s)) t
    → ((FanInPoint.wait me s.control.fan_in_point).waiter me ≡ FanInPoint.returned)
      × (s.control.fan_in_point.working i ≡ true)
      × (t.control.fan_in_point.waiter me ≢ FanInPoint.returned)
unfolding worker_step worker_section dones
faninpoint_demo-early me {s} {t} r e i lt at out more =
    let inv = Reach-Inv nthreads (new_thread_control (pos 0)) me r faninpoint-Inv in
    let work : s.control.fan_in_point.working i ≡ true = ground (arith, inv.once i, ap dones at) in
    let step : worker_step i s (s.code i) ≡ some (goes i [] (with_fan (FanInPoint.done i) s)) =
      ap (worker_step i s) at in
    let inv' = Step-Inv nthreads (new_thread_control (pos 0)) me (works i lt step) inv in
    let fan = (Reach-Inv nthreads _ me more (restart inv')).fanning in
    let (at_once, _, never) = Gate.wait-uncounted s.control.fan_in_point i e work fan me out in
    (at_once, work, never)

-- ===== src/Threading/Program.antt =====
-- Programs that start threads under one `ThreadControl` of include/threading.hpp: a main thread, and
-- threads that all run the same function. Each step is one critical section of one thread.
pub mod Points
pub mod WorkerMoves
pub mod MainMoves
pub mod Invariant
pub mod Main
pub mod Over
pub mod Outcomes
pub mod Schedules
use fredlib.Base.{
  ℕ, ltb, zero, suc, ◌+◌, ◌<◌, ◌≡◌, Bool, true, false, not, ◌&&◌, Option, none, some, List, [], ◌∷◌,
  if◌then◌else◌,
}
use fredlib.Base.Int.{ℤ}
use fredlib.Threading.Threads.{at_thread}
use fredlib.Threading.SyncPoint
use fredlib.Threading.FanInPoint
use fredlib.Threading.PausePoint
use fredlib.Threading.ThreadControl
use fredlib.Threading.ThreadControl.{ThreadControl}

-- What a thread function does, statement by statement.
pub data WorkerOp : Type 0 where
  syncs : WorkerOp  -- tc.sync()
  asks_pause : WorkerOp  -- tc.pauseIfRequred()
  is_done : WorkerOp  -- tc.done()
  until_stop : WorkerOp  -- while (true) { if (tc.stopRequired()) break; }
  pause_loop : WorkerOp  -- while (true) { tc.pauseIfRequred(); if (tc.stopRequired()) break; }
  loop_test : WorkerOp  -- the test of that loop
  sleeps : WorkerOp  -- sleep_s(1)
  writes_result : Bool → WorkerOp  -- result = …
  writes_arg : ℕ → WorkerOp  -- *(long*)arg = …

-- What the main thread does.
pub data MainOp : Type 0 where
  starts : ℕ → MainOp  -- threads.emplace_back(f), so many times
  joins : MainOp  -- t.join() for each thread
  pauses : MainOp
  resumes : MainOp
  asks_stop : MainOp  -- `stop`, before its wait
  waits : MainOp  -- FanInPoint::wait, also that of `stop`
  main_syncs : MainOp
  sets_threadnum : ℤ → MainOp  -- of the SyncPoint
  adds_thread : ℤ → MainOp  -- of the SyncPoint

-- `code` is what each thread has still to do, the statement that it is in included.
pub record System : Type 0 where
  pub control : ThreadControl
  pub started : ℕ
  pub code : ℕ → List WorkerOp
  pub main_code : List MainOp
  pub result : Bool
  pub arg : ℕ

-- Before the first statement of the main thread. Thread `i` runs `body` once it has been started.
abbrev pub launch : ThreadControl → List WorkerOp → List MainOp → Bool → ℕ → System
launch c body main_body result arg = record {
  control = c;
  started = 0;
  code = λ _. body;
  main_code = main_body;
  result = result;
  arg = arg;
}

abbrev pub with_sync : (SyncPoint.SyncPoint → SyncPoint.SyncPoint) → System → System
with_sync f s = record s { control = record s.control { sync_point = f s.control.sync_point } }

abbrev pub with_fan : (FanInPoint.FanInPoint → FanInPoint.FanInPoint) → System → System
with_fan f s = record s { control = record s.control { fan_in_point = f s.control.fan_in_point } }

abbrev pub with_pause : (PausePoint.PausePoint → PausePoint.PausePoint) → System → System
with_pause f s = record s { control = record s.control { pause_point = f s.control.pause_point } }

abbrev pub goes : ℕ → List WorkerOp → System → System
goes i r s = record s { code = at_thread i r s.code }

abbrev pub main_goes : List MainOp → System → System
main_goes r s = record s { main_code = r }

-- One critical section of `tc.sync()`, by the thread `i`, which goes on with `next`.
unfoldable pub sync_section : ℕ → (next : System → System) → System → SyncPoint.Pc → Option System
sync_section i next s SyncPoint.outside = some (with_sync (SyncPoint.sync i) s)
sync_section i next s SyncPoint.asleep = none
sync_section i next s SyncPoint.woken = some (with_sync (SyncPoint.recheck i) s)
sync_section i next s SyncPoint.passed = some (next s)

-- One critical section of `tc.pauseIfRequred()`: it ends if the flag is clear.
unfoldable pub pause_section :
    ℕ → (next : System → System) → System → PausePoint.Worker → Option System
pause_section i next s PausePoint.running =
    let s' = with_pause (PausePoint.pause_if_required i) s in
    some (if s.control.pause_point.pause then s' else next s')
pause_section i next s PausePoint.asleep = none
pause_section i next s PausePoint.woken =
    let s' = with_pause (PausePoint.recheck i) s in
    some (if s.control.pause_point.pause then s' else next s')

-- One critical section of a thread in the statement `op`, with the code `r` behind it. `none` means
-- that the thread is blocked.
unfoldable pub worker_section : WorkerOp → List WorkerOp → ℕ → System → Option System
unfolding sync_section pause_section
worker_section syncs r i s = sync_section i (goes i r) s (s.control.sync_point.pc i)
worker_section asks_pause r i s = pause_section i (goes i r) s (s.control.pause_point.worker i)
worker_section is_done r i s = some (goes i r (with_fan (FanInPoint.done i) s))
worker_section until_stop r i s =
    some (if ThreadControl.stop_required s.control then goes i r s else s)
worker_section pause_loop r i s =
    pause_section i (goes i (loop_test ∷ r)) s (s.control.pause_point.worker i)
worker_section loop_test r i s =
    some (goes i (if ThreadControl.stop_required s.control then r else pause_loop ∷ r) s)
worker_section sleeps r i s = some (goes i r s)
worker_section (writes_result b) r i s = some (goes i r (record s { result = b }))
worker_section (writes_arg n) r i s = some (goes i r (record s { arg = n }))

-- One step of the thread `i`.
unfoldable pub worker_step : ℕ → System → List WorkerOp → Option System
unfolding worker_section
worker_step i s [] = none
worker_step i s (op ∷ r) = worker_section op r i s

abbrev pub is_over : List WorkerOp → Bool
is_over [] = true
is_over (op ∷ r) = false

-- Whether the first `n` threads have ended.
unfoldable pub all_over : ℕ → (ℕ → List WorkerOp) → Bool
all_over zero code = true
all_over (suc n) code = is_over (code n) && all_over n code

-- The critical sections of `pause` and of `resume`.
unfoldable pub pause_main : (next : System) → System → PausePoint.Main → Option System
pause_main next s PausePoint.free = some (with_pause PausePoint.pause s)
pause_main next s PausePoint.pausing_woken = some (with_pause PausePoint.pause_test s)
pause_main next s PausePoint.holding = some next
pause_main next s PausePoint.pausing_asleep = none
pause_main next s PausePoint.resuming_asleep = none
pause_main next s PausePoint.resuming_woken = none

unfoldable pub resume_main : (next : System) → System → PausePoint.Main → Option System
resume_main next s PausePoint.holding = some (with_pause PausePoint.resume s)
resume_main next s PausePoint.resuming_woken = some (with_pause PausePoint.resume_test s)
resume_main next s PausePoint.free = some next
resume_main next s PausePoint.resuming_asleep = none
resume_main next s PausePoint.pausing_asleep = none
resume_main next s PausePoint.pausing_woken = none

-- The critical sections of `FanInPoint::wait`. A thread that has returned may call it again.
unfoldable pub wait_section :
    ℕ → (next : System → System) → System → FanInPoint.Waiter → Option System
wait_section i next s FanInPoint.outside = some (with_fan (FanInPoint.wait i) s)
wait_section i next s FanInPoint.asleep = none
wait_section i next s FanInPoint.woken = some (with_fan (FanInPoint.wait i) s)
wait_section i next s FanInPoint.returned =
    some (next (with_fan (FanInPoint.waiter_to i FanInPoint.outside) s))

-- One critical section of the main thread, whose number is `me`.
unfoldable pub main_section : MainOp → List MainOp → (me : ℕ) → System → Option System
unfolding sync_section pause_main resume_main wait_section all_over
main_section (starts k) r me s = some (main_goes r (record s { started = s.started + k }))
main_section joins r me s = if all_over s.started s.code then some (main_goes r s) else none
main_section pauses r me s = pause_main (main_goes r s) s s.control.pause_point.main
main_section resumes r me s = resume_main (main_goes r s) s s.control.pause_point.main
main_section asks_stop r me s =
    some (main_goes r (record s { control = ThreadControl.request_stop s.control }))
main_section waits r me s = wait_section me (main_goes r) s (s.control.fan_in_point.waiter me)
main_section main_syncs r me s = sync_section me (main_goes r) s (s.control.sync_point.pc me)
main_section (sets_threadnum k) r me s =
    some (main_goes r (with_sync (SyncPoint.set_threadnum k) s))
main_section (adds_thread k) r me s = some (main_goes r (with_sync (SyncPoint.add_thread k) s))

unfoldable pub main_step : ℕ → System → List MainOp → Option System
unfolding main_section
main_step me s [] = none
main_step me s (op ∷ r) = main_section op r me s

-- One step: of a thread that has been started, of the main thread `me`, or a wake-up for no reason.
pub data Step (me : ℕ) (s : System) (t : System) : Type 0 where
  works : (i : ℕ) → i < s.started → worker_step i s (s.code i) ≡ some t → Step me s t
  main_works : main_step me s s.main_code ≡ some t → Step me s t
  sync_stirs :
      (i : ℕ)
      → s.control.sync_point.pc i ≡ SyncPoint.asleep
      → t ≡ with_sync (SyncPoint.goes_to i SyncPoint.woken) s
      → Step me s t
  fan_stirs :
      (i : ℕ)
      → s.control.fan_in_point.waiter i ≡ FanInPoint.asleep
      → t ≡ with_fan (FanInPoint.waiter_to i FanInPoint.woken) s
      → Step me s t
  pause_stirs :
      (i : ℕ)
      → i < s.started
      → s.control.pause_point.worker i ≡ PausePoint.asleep
      → t ≡ with_pause (λ p. record p { worker = at_thread i PausePoint.woken p.worker }) s
      → Step me s t
  main_stirs : t ≡ with_pause PausePoint.notify_paused s → Step me s t

pub data Reach (me : ℕ) (s : System) : System → Type 0 where
  here : Reach me s s
  later : {t u : System} → Reach me s t → Step me t u → Reach me s u

-- A run under a schedule: `none` is a step of the main thread, and `some i` one of the thread `i`. A
-- step of a blocked thread, or of one that has not been started, changes nothing.
abbrev pub or_same : System → Option System → System
or_same s none = s
or_same s (some t) = t

unfoldable pub thread_step : ℕ → System → Option System
unfolding worker_step
thread_step i s = if ltb i s.started then worker_step i s (s.code i) else none

unfoldable pub run : (me : ℕ) → List (Option ℕ) → System → System
unfolding thread_step main_step
run me [] s = s
run me (none ∷ ts) s = run me ts (or_same s (main_step me s s.main_code))
run me (some i ∷ ts) s = run me ts (or_same s (thread_step i s))

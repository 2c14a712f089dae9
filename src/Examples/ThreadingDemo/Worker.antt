-- ===== src/Examples/ThreadingDemo/Worker.antt =====
-- What `workers_demo` of examples/threading.cpp leaves in its results.
use fredlib.Base.{
  ℕ, ◌<◌, ◌≡◌, refl, sym, subst, Bool, true, false, Option, none, some, List, [], ◌∷◌,
  if◌then◌else◌, arith, ◌==◌,
}
use fredlib.Threading.Threads.{at_thread}
use fredlib.Threading.SyncPoint
use fredlib.Threading.FanInPoint
use fredlib.Threading.PausePoint
use fredlib.Threading.ThreadControl
use fredlib.Threading.WorkerThreads.{new_worker_threads}
use fredlib.Threading.Program.{
  WorkerOp, syncs, is_done, pause_loop, loop_test, writes_result, writes_arg, starts, joins, pauses,
  resumes, asks_stop, waits, System, with_pause, goes, sync_section, pause_section, worker_section,
  worker_step, Step, works, main_works, sync_stirs, fan_stirs, pause_stirs, main_stirs, Reach, here,
  later,
}
use fredlib.Threading.Program.Main.{Same, main_step-Same}
use fredlib.Threading.Program.Points.{dones, to_start}
use fredlib.Threading.Program.Outcomes.{Program, begins, wait-follows_done}
use fredlib.Examples.ThreadingDemo.{workers_demo}

-- Where a thread of the demo stands, and what it has written by then.
data Stage (b : Bool) (k : ℕ) : List WorkerOp → Type 0 where
  in_loop : Stage b k (pause_loop ∷ writes_result true ∷ writes_arg 5 ∷ is_done ∷ syncs ∷ [])
  at_test : Stage b k (loop_test ∷ writes_result true ∷ writes_arg 5 ∷ is_done ∷ syncs ∷ [])
  at_result : Stage b k (writes_result true ∷ writes_arg 5 ∷ is_done ∷ syncs ∷ [])
  at_arg : b ≡ true → Stage b k (writes_arg 5 ∷ is_done ∷ syncs ∷ [])
  at_done : b ≡ true → k ≡ 5 → Stage b k (is_done ∷ syncs ∷ [])
  at_sync : b ≡ true → k ≡ 5 → Stage b k (syncs ∷ [])
  at_end : b ≡ true → k ≡ 5 → Stage b k []

-- Every thread stands somewhere, and so it does when another one has written.
abbrev Staged : System → Type 0
Staged s = (i : ℕ) → Stage s.result s.arg (s.code i)

write_result : {b : Bool} {k : ℕ} {l : List WorkerOp} → Stage b k l → Stage true k l
write_result in_loop = in_loop
write_result at_test = at_test
write_result at_result = at_result
write_result (at_arg e) = at_arg refl
write_result (at_done d e) = at_done refl e
write_result (at_sync d e) = at_sync refl e
write_result (at_end d e) = at_end refl e

write_arg : {b : Bool} {k : ℕ} {l : List WorkerOp} → Stage b k l → Stage b 5 l
write_arg in_loop = in_loop
write_arg at_test = at_test
write_arg at_result = at_result
write_arg (at_arg e) = at_arg e
write_arg (at_done d e) = at_done d refl
write_arg (at_sync d e) = at_sync d refl
write_arg (at_end d e) = at_end d refl

at_thread-Stage :
    (b : Bool) (k i : ℕ) (r : List WorkerOp) (code : ℕ → List WorkerOp)
    → ((j : ℕ) → Stage b k (code j))
    → Stage b k r
    → (j : ℕ) → Stage b k (at_thread i r code j)
at_thread-Stage b k i r code all new j = pick (j == i)
  where
    pick : (c : Bool) → Stage b k (if c then r else code j)
    pick true = new
    pick false = all j

-- What a step must do, if it is made.
abbrev Keeps : Option System → Type 0
Keeps none = Unit
Keeps (some t) = Staged t

module _ (s : System) (all : Staged s) (i : ℕ) where
  goes-Staged : (r : List WorkerOp) → Stage s.result s.arg r → Staged (goes i r s)
  goes-Staged r new = at_thread-Stage s.result s.arg i r s.code all new

  sync_section-Staged :
      (r : List WorkerOp) (p : SyncPoint.Pc)
      → Stage s.result s.arg r
      → Keeps (sync_section i (goes i r) s p)
  unfolding sync_section
  sync_section-Staged r SyncPoint.outside new = all
  sync_section-Staged r SyncPoint.asleep new = tt
  sync_section-Staged r SyncPoint.woken new = all
  sync_section-Staged r SyncPoint.passed new = goes-Staged r new

  either-Staged :
      (r : List WorkerOp) (f : PausePoint.PausePoint → PausePoint.PausePoint) (b : Bool)
      → Stage s.result s.arg r
      → Staged (if b then with_pause f s else goes i r (with_pause f s))
  either-Staged r f true new = all
  either-Staged r f false new = goes-Staged r new

  pause_section-Staged :
      (r : List WorkerOp) (w : PausePoint.Worker)
      → Stage s.result s.arg r
      → Keeps (pause_section i (goes i r) s w)
  unfolding pause_section
  pause_section-Staged r PausePoint.asleep new = tt
  pause_section-Staged r PausePoint.running new =
      either-Staged r (PausePoint.pause_if_required i) s.control.pause_point.pause new
  pause_section-Staged r PausePoint.woken new =
      either-Staged r (PausePoint.recheck i) s.control.pause_point.pause new

  loop-Staged :
      (c : Bool)
      → Staged (
          goes i
            (if c
              then writes_result true ∷ writes_arg 5 ∷ is_done ∷ syncs ∷ []
              else pause_loop ∷ writes_result true ∷ writes_arg 5 ∷ is_done ∷ syncs ∷ [])
            s)
  loop-Staged true = goes-Staged _ at_result
  loop-Staged false = goes-Staged _ in_loop

  worker_step-Staged : (l : List WorkerOp) → Stage s.result s.arg l → Keeps (worker_step i s l)
  unfolding worker_step worker_section
  worker_step-Staged l in_loop = pause_section-Staged _ (s.control.pause_point.worker i) at_test
  worker_step-Staged l at_test = loop-Staged s.control.stopper
  worker_step-Staged l at_result =
      at_thread-Stage true s.arg i _ s.code (λ j. write_result (all j)) (at_arg refl)
  worker_step-Staged l (at_arg d) =
      at_thread-Stage s.result 5 i _ s.code (λ j. write_arg (all j)) (at_done d refl)
  worker_step-Staged l (at_done d e) = goes-Staged _ (at_sync d e)
  worker_step-Staged l (at_sync d e) =
      sync_section-Staged [] (s.control.sync_point.pc i) (at_end d e)
  worker_step-Staged l (at_end d e) = tt

main-Staged : (s : System) (o : Option System) → Same s o → Staged s → Keeps o
main-Staged s none same all = tt
main-Staged s (some t) (c, d, e) all = λ i.
    subst (λ b. Stage b t.arg (t.code i)) (sym d)
      (subst (λ k. Stage s.result k (t.code i)) (sym e)
        (subst (λ l. Stage s.result s.arg (l i)) (sym c) (all i)))

Step-Staged : (me : ℕ) {s t : System} → Step me s t → Staged s → Staged t
Step-Staged me {s} (works i lt e) all =
    subst Keeps e (worker_step-Staged s all i (s.code i) (all i))
Step-Staged me {s} (main_works e) all =
    subst Keeps e (main-Staged s _ (main_step-Same s me s.main_code) all)
Step-Staged me (sync_stirs j w e) all = subst Staged (sym e) all
Step-Staged me (fan_stirs j w e) all = subst Staged (sym e) all
Step-Staged me (pause_stirs j lt w e) all = subst Staged (sym e) all
Step-Staged me (main_stirs e) all = subst Staged (sym e) all

Reach-Staged : (n me : ℕ) {s : System} → Reach me (workers_demo n) s → Staged s
unfolding workers_demo
Reach-Staged n me here = λ i. in_loop
Reach-Staged n me (later r st) = Step-Staged me st (Reach-Staged n me r)

-- A thread that will not call `done` any more has written both results.
written : {b : Bool} {k : ℕ} {l : List WorkerOp} → Stage b k l → dones l ≡ 0 → (b ≡ true) × (k ≡ 5)
unfolding dones
written in_loop e = absurd (omega (arith, e))
written at_test e = absurd (omega (arith, e))
written at_result e = absurd (omega (arith, e))
written (at_arg d) e = absurd (omega (arith, e))
written (at_done d f) e = absurd (omega (arith, e))
written (at_sync d f) e = (d, f)
written (at_end d f) e = (d, f)

-- The demo as a program, and the control with which `WorkerThreads` begins.
unfoldable pub workers : (n : ℕ) → Program n
unfolding to_start dones
workers n = record {
  body = pause_loop ∷ writes_result true ∷ writes_arg 5 ∷ is_done ∷ syncs ∷ [];
  main_body = starts n ∷ pauses ∷ resumes ∷ asks_stop ∷ waits ∷ asks_stop ∷ waits ∷ joins ∷ [];
  result = false;
  arg = 100;
  fits = omega arith;
  one_done = omega arith;
}

workers-begins : (n : ℕ) → workers_demo n ≡ begins (workers n)
unfolding workers_demo workers new_worker_threads ThreadControl.initialize SyncPoint.initialize
    FanInPoint.initialize PausePoint.initialize
workers-begins n = refl

-- In every state that `workerthread_demo`, with any number of threads but 0, reaches and in which
-- a wait of the main thread has returned: the result is true, and the argument is 5.
pub workers_demo-result :
    (n me : ℕ) {s : System}
    → 0 < n
    → Reach me (workers_demo n) s
    → s.control.fan_in_point.waiter me ≡ FanInPoint.returned
    → (s.result ≡ true) × (s.arg ≡ 5)
workers_demo-result n me {s} lt r e =
    written (Reach-Staged n me r 0)
      (wait-follows_done (workers n) me (subst (λ u. Reach me u s) (workers-begins n) r) e 0 lt)

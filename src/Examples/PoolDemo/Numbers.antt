-- ===== src/Examples/PoolDemo/Numbers.antt =====
-- The numbers of threads that the main thread of `genericthreadpool_demo` of examples/threading.cpp prints.
use fredlib.Base.{
  ltb, ℕ, ◌+◌, ◌≡◌, refl, sym, ap, ◌∙◌, subst, Bool, true, false, Option, none, some, List, [], ◌∷◌,
  ◌++◌, if◌then◌else◌, ◌==◌,
}
use fredlib.Threading.FanInPoint
use fredlib.Threading.PausePoint
use mathlib.Core.Option
use mathlib.Core.List.{append-nil}
use fredlib.Threading.ThreadPool.{
  Place, top, checking, taking, working, leaving, finished, ThreadPool, stop,
}
use fredlib.Examples.PoolDemo.{
  PoolOp, pushes, pauses, resumes, adds_thread, prints_number, asks_stop, waits, joins, Line,
  by_task, by_main, task_effect, Demo, with_pool, new_pool, add_thread, get_numthreads,
  all_finished, pause_section, resume_section, wait_section, main_section, main_step, pool_demo,
  worker_section, worker_step, Step, works, main_works, worker_stirs, main_stirs, wait_stirs, Reach,
  here, later,
}

-- The numbers that the main thread has printed.
abbrev pub main_numbers : List Line → List ℕ
main_numbers [] = []
main_numbers (by_main n ∷ l) = n ∷ main_numbers l
main_numbers (by_task n ∷ l) = main_numbers l

main_numbers-append : (k l : List Line) → main_numbers (k ++ l) ≡ main_numbers k ++ main_numbers l
main_numbers-append [] l = refl
main_numbers-append (by_main n ∷ k) l = ap {B = List ℕ} (λ r. n ∷ r) (main_numbers-append k l)
main_numbers-append (by_task n ∷ k) l = main_numbers-append k l

-- What code of the main thread prints from `n` threads on, if nothing else changes their number.
unfoldable pub will_print : List PoolOp → ℕ → List ℕ
will_print [] n = []
will_print (pushes ∷ r) n = will_print r n
will_print (pauses ∷ r) n = will_print r n
will_print (resumes ∷ r) n = will_print r n
will_print (adds_thread k ∷ r) n = will_print r (n + k)
will_print (prints_number ∷ r) n = n ∷ will_print r n
will_print (asks_stop ∷ r) n = will_print r n
will_print (waits ∷ r) n = will_print r n
will_print (joins ∷ r) n = will_print r 0

-- All the numbers of threads that the demo has printed and will print.
unfoldable output : Demo → List ℕ
output d = main_numbers d.printed ++ will_print d.code d.run.threads

append_assoc : (xs : List ℕ) (y : ℕ) (ys : List ℕ) → (xs ++ y ∷ []) ++ ys ≡ xs ++ y ∷ ys
append_assoc [] y ys = refl
append_assoc (x ∷ xs) y ys = ap (λ l. x ∷ l) (append_assoc xs y ys)

-- A step that is made keeps all the output.
abbrev Keeps : Demo → Option Demo → Type 0
Keeps d none = Unit
Keeps d (some t) = output t ≡ output d

module _ (d next : Demo) (e : output next ≡ output d) where
  pause_section-Keeps : (m : PausePoint.Main) → Keeps d (pause_section next d m)
  unfolding pause_section output
  pause_section-Keeps PausePoint.free = refl
  pause_section-Keeps PausePoint.pausing_woken = refl
  pause_section-Keeps PausePoint.holding = e
  pause_section-Keeps PausePoint.pausing_asleep = tt
  pause_section-Keeps PausePoint.resuming_asleep = tt
  pause_section-Keeps PausePoint.resuming_woken = tt

  resume_section-Keeps : (m : PausePoint.Main) → Keeps d (resume_section next d m)
  unfolding resume_section output
  resume_section-Keeps PausePoint.free = e
  resume_section-Keeps PausePoint.pausing_woken = tt
  resume_section-Keeps PausePoint.holding = refl
  resume_section-Keeps PausePoint.pausing_asleep = tt
  resume_section-Keeps PausePoint.resuming_asleep = tt
  resume_section-Keeps PausePoint.resuming_woken = refl

  wait_section-Keeps : (w : FanInPoint.Waiter) → Keeps d (wait_section next d w)
  unfolding wait_section output
  wait_section-Keeps FanInPoint.outside = refl
  wait_section-Keeps FanInPoint.asleep = tt
  wait_section-Keeps FanInPoint.woken = refl
  wait_section-Keeps FanInPoint.returned = e

if-Keeps :
    (d : Demo) (b : Bool) (s t : Option Demo) → Keeps d s → Keeps d t → Keeps d (if b then s else t)
if-Keeps d true s t p q = p
if-Keeps d false s t p q = q

stop-output :
    (d : Demo) (r : List PoolOp) (b : Bool)
    → output (record (if b then d else with_pool stop d) { code = r })
      ≡ output (record d { code = r })
unfolding output
stop-output d r true = refl
stop-output d r false = refl

rest_output :
    (d : Demo) {l : List PoolOp}
    → d.code ≡ l
    → main_numbers d.printed ++ will_print l d.run.threads ≡ output d
unfolding output
rest_output d e = ap (λ l. main_numbers d.printed ++ will_print l d.run.threads) (sym e)

main_section-Keeps :
    (op : PoolOp) (r : List PoolOp) (d : Demo) → d.code ≡ op ∷ r → Keeps d (main_section op r d)
unfolding main_section will_print output get_numthreads add_thread
main_section-Keeps pushes r d e = rest_output d e
main_section-Keeps pauses r d e =
    pause_section-Keeps d (record d { code = r }) (rest_output d e)
      d.run.pool.control.pause_point.main
main_section-Keeps resumes r d e =
    resume_section-Keeps d (record d { code = r }) (rest_output d e)
      d.run.pool.control.pause_point.main
main_section-Keeps (adds_thread k) r d e = rest_output d e
main_section-Keeps prints_number r d e =
    ap (λ l. l ++ will_print r d.run.threads)
      (main_numbers-append d.printed (by_main d.run.threads ∷ []))
    ∙ append_assoc (main_numbers d.printed) d.run.threads (will_print r d.run.threads)
    ∙ rest_output d e
main_section-Keeps asks_stop r d e = stop-output d r (d.run.threads == 0) ∙ rest_output d e
main_section-Keeps waits r d e = if-Keeps d (d.run.threads == 0) _ _ (rest_output d e) (
    wait_section-Keeps d (record d { code = r }) (rest_output d e)
      (d.run.pool.control.fan_in_point.waiter 0))
main_section-Keeps joins r d e =
    if-Keeps d (all_finished d.run.threads d.run.pool.place) _ none (rest_output d e) tt

main_step-Keeps : (d : Demo) (l : List PoolOp) → d.code ≡ l → Keeps d (main_step d l)
unfolding main_step
main_step-Keeps d [] e = tt
main_step-Keeps d (op ∷ r) e = main_section-Keeps op r d e

task_effect-output :
    (d : Demo) (p : Place)
    → main_numbers (task_effect p d).printed
        ++ will_print (task_effect p d).code (task_effect p d).run.threads
      ≡ output d
unfolding task_effect output
task_effect-output d (working task) =
    ap (λ l. l ++ will_print d.code d.run.threads)
      (main_numbers-append d.printed (by_task 11 ∷ []) ∙ append-nil (main_numbers d.printed))
task_effect-output d top = refl
task_effect-output d checking = refl
task_effect-output d taking = refl
task_effect-output d leaving = refl
task_effect-output d finished = refl

worker_step-Keeps : (i : ℕ) (d : Demo) → Keeps d (worker_step i d)
unfolding worker_step output
worker_step-Keeps i d =
    if-Keeps d (ltb i d.run.threads) _ none
      (moved (
        worker_section i d.run.pool (d.run.pool.place i) (d.run.pool.control.pause_point.worker i)))
      tt
  where
    moved :
        (o : Option ThreadPool)
        → Keeps d (Option.map (λ p. with_pool (λ q. p) (task_effect (d.run.pool.place i) d)) o)
    moved none = tt
    moved (some p) = task_effect-output d (d.run.pool.place i)

Step-output : {d t : Demo} → Step d t → output t ≡ output d
unfolding output
Step-output {d} (works i e) = subst (Keeps d) e (worker_step-Keeps i d)
Step-output {d} (main_works e) = subst (Keeps d) e (main_step-Keeps d d.code refl)
Step-output (worker_stirs i w q) = ap output q
Step-output (main_stirs q) = ap output q
Step-output (wait_stirs w q) = ap output q

Reach-output : {d t : Demo} → Reach d t → output t ≡ output d
Reach-output here = refl
Reach-output (later r st) = Step-output st ∙ Reach-output r

pub pool_demo-numbers :
    (n : ℕ) {d : Demo}
    → Reach (pool_demo n) d
    → main_numbers d.printed ++ will_print d.code d.run.threads ≡ (n + 2) ∷ 0 ∷ []
unfolding output will_print pool_demo new_pool
pool_demo-numbers n r = Reach-output r

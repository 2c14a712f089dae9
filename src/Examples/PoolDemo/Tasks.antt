-- ===== src/Examples/PoolDemo/Tasks.antt =====
-- What `genericthreadpool_demo` of examples/threading.cpp prints, by the main thread and by its task.
use fredlib.Base.{
  ℕ, ◌+◌, ◌≡◌, refl, sym, ap, ◌∙◌, subst, Bool, true, false, none, some, List, [], ◌∷◌, ◌++◌,
  if◌then◌else◌, ◌==◌, arith, length-append, replicate,
}
use fredlib.Threading.FanInPoint
use fredlib.Threading.PausePoint
use fredlib.Threading.Threads.{how_many, how_many-none}
use fredlib.Threading.ThreadPool.{top, new_thread_pool, push_function, stop}
use fredlib.Threading.ThreadPool.OnHeap.Shadow.{is_working}
use fredlib.Examples.PoolDemo.{
  PoolOp, pushes, pauses, resumes, adds_thread, prints_number, asks_stop, waits, joins, Demo,
  with_pool, new_pool, add_thread, get_numthreads, all_finished, pause_section, resume_section,
  wait_section, main_section, main_step, pool_demo, Step, works, main_works, worker_stirs,
  main_stirs, wait_stirs, Reach, here, later,
}
use fredlib.Examples.PoolDemo.Numbers.{main_numbers, will_print, pool_demo-numbers}
use fredlib.Examples.PoolDemo.Pending.{
  task_numbers, will_push, will_add, in_pool, open_tasks, task_output, Fits, Keeps,
  task_numbers-main, if-Keeps, worker_step-Keeps,
}

module _ (m : ℕ) (d next : Demo) (fits : Fits m d) (keeps : Keeps m d (some next)) where
  pause_section-Keeps : (n : PausePoint.Main) → Keeps m d (pause_section next d n)
  unfolding pause_section
  pause_section-Keeps PausePoint.free = (refl, fits)
  pause_section-Keeps PausePoint.pausing_woken = (refl, fits)
  pause_section-Keeps PausePoint.holding = keeps
  pause_section-Keeps PausePoint.pausing_asleep = tt
  pause_section-Keeps PausePoint.resuming_asleep = tt
  pause_section-Keeps PausePoint.resuming_woken = tt

  resume_section-Keeps : (n : PausePoint.Main) → Keeps m d (resume_section next d n)
  unfolding resume_section
  resume_section-Keeps PausePoint.free = keeps
  resume_section-Keeps PausePoint.pausing_woken = tt
  resume_section-Keeps PausePoint.holding = (refl, fits)
  resume_section-Keeps PausePoint.pausing_asleep = tt
  resume_section-Keeps PausePoint.resuming_asleep = tt
  resume_section-Keeps PausePoint.resuming_woken = (refl, fits)

  wait_section-Keeps : (w : FanInPoint.Waiter) → Keeps m d (wait_section next d w)
  unfolding wait_section FanInPoint.wait
  wait_section-Keeps FanInPoint.outside = (refl, fits)
  wait_section-Keeps FanInPoint.asleep = tt
  wait_section-Keeps FanInPoint.woken = (refl, fits)
  wait_section-Keeps FanInPoint.returned = keeps

stop-Keeps :
    (m : ℕ) (d : Demo) (r : List PoolOp) (b : Bool)
    → Keeps m d (some (record d { code = r }))
    → Keeps m d (some (record (if b then d else with_pool stop d) { code = r }))
unfolding stop
stop-Keeps m d r true k = k
stop-Keeps m d r false k = k

module _ (m : ℕ) (r : List PoolOp) (d : Demo) (fits : Fits m d) where
  -- A statement of the main thread that leaves the pool's tasks and adds no threads.
  passes :
      (op : PoolOp)
      → d.code ≡ op ∷ r
      → will_push (op ∷ r) ≡ will_push r
      → will_add (op ∷ r) ≡ will_add r
      → Keeps m d (some (record d { code = r }))
  passes op e f g =
      let a = ap will_add e in
      (
        ap (λ k. task_numbers d.printed ++ replicate (k + in_pool m d.run.pool) 11)
            (sym (ap will_push e ∙ f)),
        omega arith,
      )

  main_section-Keeps : (op : PoolOp) → d.code ≡ op ∷ r → Keeps m d (main_section op r d)
  unfolding main_section will_push will_add get_numthreads add_thread push_function
  main_section-Keeps pushes e =
      let a = ap will_add e in
      let b = ap will_push e in
      let long = length-append d.run.pool.queue (0 ∷ []) in
      (ap (λ k. task_numbers d.printed ++ replicate k 11) (omega arith), omega arith)
  main_section-Keeps pauses e =
      pause_section-Keeps m d (record d { code = r }) fits (passes pauses e refl refl)
        d.run.pool.control.pause_point.main
  main_section-Keeps resumes e =
      resume_section-Keeps m d (record d { code = r }) fits (passes resumes e refl refl)
        d.run.pool.control.pause_point.main
  main_section-Keeps (adds_thread k) e =
      let a = ap will_add e in
      (
        ap (λ w. task_numbers d.printed ++ replicate (w + in_pool m d.run.pool) 11)
            (sym (ap will_push e)),
        omega arith,
      )
  main_section-Keeps prints_number e =
      let (same, fits') = passes prints_number e refl refl in
      (
        ap (λ l. l ++ replicate (will_push r + in_pool m d.run.pool) 11)
              (task_numbers-main d.printed d.run.threads)
            ∙ same,
        fits',
      )
  main_section-Keeps asks_stop e =
      stop-Keeps m d r (d.run.threads == 0) (passes asks_stop e refl refl)
  main_section-Keeps waits e =
      if-Keeps m d (d.run.threads == 0) _ _ (λ _. passes waits e refl refl)
        (wait_section-Keeps m d (record d { code = r }) fits (passes waits e refl refl)
          (d.run.pool.control.fan_in_point.waiter 0))
  main_section-Keeps joins e =
      let (same, fits') = passes joins e refl refl in
      if-Keeps m d (all_finished d.run.threads d.run.pool.place) _ none (λ _. (same, omega arith))
        tt

main_step-Keeps :
    (m : ℕ) (d : Demo) (l : List PoolOp) → Fits m d → d.code ≡ l → Keeps m d (main_step d l)
unfolding main_step
main_step-Keeps m d [] fits e = tt
main_step-Keeps m d (op ∷ r) fits e = main_section-Keeps m r d fits op e

Step-Keeps : (m : ℕ) {d t : Demo} → Step d t → Fits m d → Keeps m d (some t)
Step-Keeps m {d} (works i e) fits = subst (Keeps m d) e (worker_step-Keeps m i d fits)
Step-Keeps m {d} (main_works e) fits = subst (Keeps m d) e (main_step-Keeps m d d.code fits refl)
Step-Keeps m {d} (worker_stirs i w q) fits = subst (λ t. Keeps m d (some t)) (sym q) (refl, fits)
Step-Keeps m {d} (main_stirs q) fits = subst (λ t. Keeps m d (some t)) (sym q) (refl, fits)
Step-Keeps m {d} (wait_stirs w q) fits = subst (λ t. Keeps m d (some t)) (sym q) (refl, fits)

Reach-Keeps : (m : ℕ) {d t : Demo} → Reach d t → Fits m d → Keeps m d (some t)
Reach-Keeps m here fits = (refl, fits)
Reach-Keeps m (later r st) fits =
    let (same, fits') = Reach-Keeps m r fits in
    let (next, fits'') = Step-Keeps m st fits' in (next ∙ same, fits'')

-- At the start there is only the task that the main thread will push.
pool_demo-output : (n : ℕ) → task_output (n + 2) (pool_demo n) ≡ 11 ∷ []
unfolding pool_demo new_pool new_thread_pool will_push
pool_demo-output n =
    let none_works = how_many-none is_working (n + 2) (λ i. top) (λ i lt. refl) in
    let one : 1 + (0 + how_many is_working (n + 2) (λ i. top)) ≡ 1 = omega arith in
    ap {B = List ℕ} (λ k. replicate k 11) one

pool_demo-Fits : (n : ℕ) → Fits (n + 2) (pool_demo n)
unfolding pool_demo new_pool will_add
pool_demo-Fits n = omega arith

-- In every state that `genericthreadpool_demo`, with `n` threads at the start, reaches: the
-- numbers that the main thread has printed, followed by those that the rest of its code prints
-- from the present number of threads, are `n + 2` and 0; and the numbers that the pushed task has
-- printed, followed by one 11 for each task that is still to be pushed, is in the queue, or is
-- about to be run by a worker `i < n + 2`, are the single 11.
pub pool_demo-prints :
    (n : ℕ) {d : Demo}
    → Reach (pool_demo n) d
    → (main_numbers d.printed ++ will_print d.code d.run.threads ≡ (n + 2) ∷ 0 ∷ [])
      × (task_numbers d.printed ++ replicate (open_tasks (n + 2) d) 11 ≡ 11 ∷ [])
pool_demo-prints n r =
    let (same, fits) = Reach-Keeps (n + 2) r (pool_demo-Fits n) in
    (pool_demo-numbers n r, same ∙ pool_demo-output n)

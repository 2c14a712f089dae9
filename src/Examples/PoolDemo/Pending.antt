-- ===== src/Examples/PoolDemo/Pending.antt =====
-- What the task of `genericthreadpool_demo` of examples/threading.cpp has printed, whether it is still to be
-- run, and the steps of the workers.
use mathlib.Core.Option
use fredlib.Base.{
  ltb, ltb→lt, ℕ, suc, ◌+◌, ◌<◌, ◌≤◌, ◌≡◌, refl, sym, ap, ◌∙◌, Bool, true, false, Option, none,
  some, List, [], ◌∷◌, ◌++◌, if◌then◌else◌, arith, length, replicate,
}
use fredlib.Threading.PausePoint
use fredlib.Threading.Threads.{bit, at_thread, how_many, how_many-at_thread}
use fredlib.Threading.ThreadPool.{
  Place, top, checking, taking, working, leaving, finished, ThreadPool, ask_pause, recheck_pause,
  check_stop, take_from, take_task, end_task, leave,
}
use fredlib.Threading.ThreadPool.OnHeap.Shadow.{is_working}
use fredlib.Examples.PoolDemo.{
  PoolOp, pushes, pauses, resumes, adds_thread, prints_number, asks_stop, waits, joins, Line,
  by_task, by_main, task_effect, Demo, with_pool, worker_section, worker_step,
}

-- The numbers that the task has printed.
abbrev pub task_numbers : List Line → List ℕ
task_numbers [] = []
task_numbers (by_main n ∷ l) = task_numbers l
task_numbers (by_task n ∷ l) = n ∷ task_numbers l

-- The tasks and the threads that code of the main thread still adds.
unfoldable pub will_push : List PoolOp → ℕ
will_push [] = 0
will_push (pushes ∷ r) = suc (will_push r)
will_push (pauses ∷ r) = will_push r
will_push (resumes ∷ r) = will_push r
will_push (adds_thread k ∷ r) = will_push r
will_push (prints_number ∷ r) = will_push r
will_push (asks_stop ∷ r) = will_push r
will_push (waits ∷ r) = will_push r
will_push (joins ∷ r) = will_push r

unfoldable pub will_add : List PoolOp → ℕ
will_add [] = 0
will_add (pushes ∷ r) = will_add r
will_add (pauses ∷ r) = will_add r
will_add (resumes ∷ r) = will_add r
will_add (adds_thread k ∷ r) = k + will_add r
will_add (prints_number ∷ r) = will_add r
will_add (asks_stop ∷ r) = will_add r
will_add (waits ∷ r) = will_add r
will_add (joins ∷ r) = will_add r

-- The tasks in the queue, and those that a worker `i < m` is about to run.
abbrev pub in_pool : ℕ → ThreadPool → ℕ
in_pool m s = length s.queue + how_many is_working m s.place

-- The tasks that are not run yet.
abbrev pub open_tasks : ℕ → Demo → ℕ
open_tasks m d = will_push d.code + in_pool m d.run.pool

abbrev pub task_output : ℕ → Demo → List ℕ
task_output m d = task_numbers d.printed ++ replicate (open_tasks m d) 11

abbrev pub Fits : ℕ → Demo → Type 0
Fits m d = d.run.threads + will_add d.code ≤ m

-- A step that is made keeps the output of the tasks, run or not.
abbrev pub Keeps : ℕ → Demo → Option Demo → Type 0
Keeps m d none = Unit
Keeps m d (some t) = (task_output m t ≡ task_output m d) × Fits m t

pub task_numbers-main :
    (l : List Line) (n : ℕ) → task_numbers (l ++ by_main n ∷ []) ≡ task_numbers l
task_numbers-main [] n = refl
task_numbers-main (by_main k ∷ l) n = task_numbers-main l n
task_numbers-main (by_task k ∷ l) n = ap {B = List ℕ} (λ r. k ∷ r) (task_numbers-main l n)

-- A number that the task has printed is one that it had to print.
task_numbers-task :
    (l : List Line) (n : ℕ) (r : List ℕ)
    → task_numbers (l ++ by_task n ∷ []) ++ r ≡ task_numbers l ++ n ∷ r
task_numbers-task [] n r = refl
task_numbers-task (by_main k ∷ l) n r = task_numbers-task l n r
task_numbers-task (by_task k ∷ l) n r = ap {B = List ℕ} (λ z. k ∷ z) (task_numbers-task l n r)

module _ (m : ℕ) where
  -- The task of a worker that runs one is not in the pool any more.
  abbrev Costs : ThreadPool → Place → Option ThreadPool → Type 0
  Costs s p none = Unit
  Costs s p (some t) = in_pool m t + bit (is_working p) ≡ in_pool m s

  moves-Costs :
      (s : ThreadPool) (i : ℕ) (p x : Place)
      → i < m
      → s.place i ≡ p
      → is_working x ≡ false
      → how_many is_working m (at_thread i x s.place) + bit (is_working p)
        ≡ how_many is_working m s.place
  moves-Costs s i p x lt e free =
      let counted = how_many-at_thread is_working m s.place i x lt in
      let a = ap bit (ap is_working e) in let b = ap bit free in omega arith

  free_if :
      (b : Bool) (x y : Place)
      → is_working x ≡ false
      → is_working y ≡ false
      → is_working (if b then x else y) ≡ false
  free_if true x y e f = e
  free_if false x y e f = f

  takes-Costs :
      (s : ThreadPool) (i : ℕ) (q : List ℕ)
      → i < m
      → s.place i ≡ taking
      → s.queue ≡ q
      → in_pool m (take_from i q s) ≡ in_pool m s
  unfolding take_from
  takes-Costs s i [] lt e f = let k = moves-Costs s i taking top lt e refl in omega arith
  takes-Costs s i (task ∷ q) lt e f =
      let counted = how_many-at_thread is_working m s.place i (working task) lt in
      let a = ap bit (ap is_working e) in let long = ap length f in omega arith

  worker_section-Costs :
      (s : ThreadPool) (i : ℕ) (p : Place) (w : PausePoint.Worker)
      → i < m
      → s.place i ≡ p
      → Costs s p (worker_section i s p w)
  unfolding worker_section ask_pause recheck_pause check_stop take_task end_task leave
  worker_section-Costs s i top PausePoint.running lt e =
      let k =
        moves-Costs s i top _ lt e (free_if s.control.pause_point.pause top checking refl refl) in
      omega arith
  worker_section-Costs s i top PausePoint.asleep lt e = tt
  worker_section-Costs s i top PausePoint.woken lt e =
      let k =
        moves-Costs s i top _ lt e (free_if s.control.pause_point.pause top checking refl refl) in
      omega arith
  worker_section-Costs s i checking w lt e =
      let k =
        moves-Costs s i checking _ lt e (free_if s.control.stopper leaving taking refl refl) in
      omega arith
  worker_section-Costs s i taking w lt e = let k = takes-Costs s i s.queue lt e refl in omega arith
  worker_section-Costs s i (working task) w lt e =
      let k = moves-Costs s i (working task) top lt e refl in omega arith
  worker_section-Costs s i leaving w lt e =
      let k = moves-Costs s i leaving finished lt e refl in omega arith
  worker_section-Costs s i finished w lt e = tt

-- The section of a worker, with what its task prints.
task_effect-Keeps :
    (m : ℕ) (d : Demo) (p : Place) (s : ThreadPool)
    → in_pool m s + bit (is_working p) ≡ in_pool m d.run.pool
    → Fits m d
    → Keeps m d (some (with_pool (λ q. s) (task_effect p d)))
unfolding task_effect
task_effect-Keeps m d p s e fits = effect p e
  where
    same : in_pool m s ≡ in_pool m d.run.pool → Keeps m d (some (with_pool (λ q. s) d))
    same f = (ap (λ k. task_numbers d.printed ++ replicate (will_push d.code + k) 11) f, fits)

    effect :
        (p : Place)
        → in_pool m s + bit (is_working p) ≡ in_pool m d.run.pool
        → Keeps m d (some (with_pool (λ q. s) (task_effect p d)))
    effect (working task) e =
        let k = will_push d.code + in_pool m s in
        let one_less : will_push d.code + in_pool m d.run.pool ≡ suc k = omega arith in
        (
          task_numbers-task d.printed 11 (replicate k 11)
              ∙ ap (λ k. task_numbers d.printed ++ replicate k 11) (sym one_less),
          fits,
        )
    effect top e = same (omega arith)
    effect checking e = same (omega arith)
    effect taking e = same (omega arith)
    effect leaving e = same (omega arith)
    effect finished e = same (omega arith)

pub if-Keeps :
    (m : ℕ) (d : Demo) (b : Bool) (s t : Option Demo)
    → (b ≡ true → Keeps m d s)
    → Keeps m d t
    → Keeps m d (if b then s else t)
if-Keeps m d true s t p q = p refl
if-Keeps m d false s t p q = q

pub worker_step-Keeps : (m i : ℕ) (d : Demo) → Fits m d → Keeps m d (worker_step i d)
unfolding worker_step
worker_step-Keeps m i d fits =
    let s = d.run.pool in
    let p = s.place i in
    let w = s.control.pause_point.worker i in
    if-Keeps m d (ltb i d.run.threads) _ none
      (λ there.
        let lt = ltb→lt i d.run.threads there in
        made (worker_section i s p w) (worker_section-Costs m s i p w (omega arith) refl))
      tt
  where
    made :
        (o : Option ThreadPool)
        → Costs m d.run.pool (d.run.pool.place i) o
        → Keeps m d (Option.map (λ q. with_pool (λ r. q) (task_effect (d.run.pool.place i) d)) o)
    made none c = tt
    made (some q) c = task_effect-Keeps m d (d.run.pool.place i) q c fits

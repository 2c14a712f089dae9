-- ===== src/Threading/ThreadPool/OnHeap/Lifetimes.antt =====
-- How long the queue elements of include/threading.hpp's `GenericThreadPool` live.
use mathlib.Core.Bool.{false≢true}
use fredlib.Base.{
  ℕ, ◌≡◌, ◌≢◌, refl, sym, ap, ◌∙◌, false, Option, none, some, List, [], ◌∷◌, ◌++◌, arith, has, inl,
  inr, length, length-append,
}
use fredlib.SafeList.Heap.{Ptr}
use fredlib.Threading.FanInPoint
use fredlib.Threading.ThreadPool.{taking, working, finished, ThreadPool, new_thread_pool}
use fredlib.Threading.ThreadPool.Moves.{Reach-Inv}
use fredlib.Threading.ThreadPool.Lifecycle.{stop-joins, stop-abandons, Over, Reach-Over}
use fredlib.Threading.ThreadPool.Elements.Owned.{objects, tasks}
use fredlib.Threading.ThreadPool.Elements.Calls.{push_element-Pushed}
use fredlib.Threading.ThreadPool.OnHeap.{
  HeapPool, new_heap_pool, Step, controls, pushes, takes, runs, wakes, Reach, here, later,
}
use fredlib.Threading.ThreadPool.OnHeap.Shadow.{is_working, abstracted, Shadow}
use fredlib.Threading.ThreadPool.OnHeap.Tasks.{some-injective}
use fredlib.Threading.ThreadPool.OnHeap.Steps.{Reach-Shadow, reached-Shadow, rooted-Shadow}

nothing_left : (a b c : List ℕ) → a ++ b ≡ c → a ≡ c → b ≡ []
nothing_left a [] c e f = refl
nothing_left a (x ∷ b) c e f =
    let long = length-append a (x ∷ b) in
    let same : length (a ++ x ∷ b) ≡ length a = ap length (e ∙ sym f) in absurd (omega arith)

no_objects : (q : List (Ptr × ℕ)) (o : Ptr) → tasks q ≡ [] → has o (objects q) ≡ false
no_objects [] o e = refl
no_objects ((p, t) ∷ q) o e = absurd (cc e)

none_if : {A : Type 0} (m : Option A) → ((a : A) → m ≢ some a) → m ≡ none
none_if none h = refl
none_if (some a) h = absurd (h a refl)

-- In a state that a `GenericThreadPool` with its queue on the heap reaches, in which all pushed
-- tasks have been taken and no worker has an element: no element is alive. Every element was
-- deleted.
pub heap_pool-emptied :
    {offset n : ℕ} {p : HeapPool}
    → Reach offset n (new_heap_pool n) p
    → p.started ≡ p.pushed
    → ((i : ℕ) → is_working (p.place i) ≡ false)
    → (obj : Ptr) → p.elements.task obj ≡ none
heap_pool-emptied {offset} {n} {p} r all idle obj =
    let s = reached-Shadow r in
    let empty = nothing_left p.started (tasks s.queue) p.pushed (Reach-Inv s.reach).in_order all in
    none_if (p.elements.task obj) (λ t meant. elim (s.kept obj t meant) [
      | inl queued ↦ false≢true (sym (no_objects s.queue obj empty) ∙ queued)
      | inr (i, at) ↦ false≢true (sym (idle i) ∙ ap is_working at)
    ])

-- A worker that has finished has no element and takes none.
finished-quiet :
    {offset n : ℕ} {origin : ThreadPool} {p : HeapPool} (s : Shadow offset n origin p) (i : ℕ)
    → s.places i ≡ finished
    → (p.place i ≢ taking) × ((obj : Ptr) → p.place i ≢ working obj)
finished-quiet s i over = (
  λ at. cc (sym over ∙ s.alike.idle i (ap is_working at) ∙ at),
  λ obj at. let (t, works, held) = s.alike.busy i obj at in absurd (cc (sym works ∙ over)),
)

Step-alive :
    {offset n : ℕ} {origin : ThreadPool} {p q : HeapPool} (s : Shadow offset n origin p)
    → Step offset n p q
    → Over n (abstracted p s.places s.queue)
    → (obj : Ptr) (t : ℕ) → p.elements.task obj ≡ some t
    → q.elements.task obj ≡ some t
Step-alive s (controls st c) over obj t alive = alive
Step-alive {offset} {p = p} s (pushes new task e unused eq) over obj t alive =
    let (e', eq', pushed) = push_element-Pushed offset p.elements s.queue new task s.owned unused in
    ap (λ z. z.task obj) (some-injective (sym eq ∙ eq')) ∙ pushed.kept_old obj t alive
Step-alive s (takes i expired r e lt at eq) over obj t alive =
    absurd ((finished-quiet s i (over i lt)).0 at)
Step-alive s (runs i o task e lt at eq) over obj t alive =
    absurd ((finished-quiet s i (over i lt)).1 o at)
Step-alive s (wakes xs ys i slept) over obj t alive = alive

-- From a state that a `GenericThreadPool` with its queue on the heap reaches and in which the wait
-- of some call of `stop` has returned, in every state that it reaches further on: no further task
-- has been taken, and each element that was alive still is, with its task.
pub stop-leaks :
    {offset n : ℕ} {p q : HeapPool}
    → Reach offset n (new_heap_pool n) p
    → (j : ℕ) → p.control.fan_in_point.waiter j ≡ FanInPoint.returned
    → Reach offset n p q
    → (q.started ≡ p.started)
      × ((obj : Ptr) (t : ℕ) → p.elements.task obj ≡ some t → q.elements.task obj ≡ some t)
stop-leaks {offset} {n} {p} {q} r j returned more =
    ((stop-abandons first.reach j returned (later_Shadow more).reach).0, lives more)
  where
    first : Shadow offset n (new_thread_pool n) p
    first = reached-Shadow r

    later_Shadow :
        {u : HeapPool}
        → Reach offset n p u
        → Shadow offset n (abstracted p first.places first.queue) u
    later_Shadow m =
        Reach-Shadow offset n (abstracted p first.places first.queue) first.reach m
          (rooted-Shadow first)

    lives :
        {u : HeapPool}
        → Reach offset n p u
        → (obj : Ptr) (t : ℕ) → p.elements.task obj ≡ some t
        → u.elements.task obj ≡ some t
    lives here obj t alive = alive
    lives (later m st) obj t alive =
        let (inv, over, same) =
          Reach-Over (later_Shadow m).reach (Reach-Inv first.reach)
            (λ i lt. (stop-joins first.reach j returned i lt).0) in
        Step-alive (later_Shadow m) st over obj t (lives m obj t alive)

-- ===== src/Threading/ThreadPool/OnHeap/Shadow.antt =====
-- The sequence of tasks that the queue on the heap of include/threading.hpp's `GenericThreadPool` stands for.
use fredlib.Base.{ℕ, ◌≡◌, Bool, true, false, some, List, has, ◌⊎◌}
use fredlib.SafeList.Heap.{Ptr}
use fredlib.Threading.ThreadPool
use fredlib.Threading.ThreadPool.{
  Place, top, checking, taking, working, leaving, finished, ThreadPool, new_thread_pool, ask_pause,
  recheck_pause, check_stop, leave, stop,
}
use fredlib.Threading.ThreadPool.Elements.{Elements}
use fredlib.Threading.ThreadPool.Elements.Owned.{objects, tasks, Owned, Held}
use fredlib.Threading.ThreadPool.OnHeap.{HeapPool}

abbrev pub is_working : Place → Bool
is_working (working p) = true
is_working place = false

-- The pool whose queue is a sequence of tasks, with these places of its workers.
abbrev pub abstracted : HeapPool → (ℕ → Place) → List (Ptr × ℕ) → ThreadPool
abstracted p places q = record {
  queue = tasks q;
  control = p.control;
  place = places;
  started = p.started;
  pushed = p.pushed;
}

-- A worker runs the task of the element that it holds, and elsewhere the places are the same. No two workers
-- hold one element.
pub record Alike (offset : ℕ) (e : Elements) (q : List (Ptr × ℕ)) (place places : ℕ → Place)
    : Type 0 where
  pub idle : (i : ℕ) → is_working (place i) ≡ false → places i ≡ place i
  pub busy :
      (i : ℕ) (obj : Ptr)
      → place i ≡ working obj
      → (t : ℕ) × (places i ≡ working t) × Held offset e q obj t
  pub apart : (i j : ℕ) (obj : Ptr) → place i ≡ working obj → place j ≡ working obj → i ≡ j

-- Every element that is alive is in the queue, or a worker holds it.
abbrev pub Kept : Elements → List (Ptr × ℕ) → (ℕ → Place) → Type 0
Kept e q place =
    (obj : Ptr) (t : ℕ)
    → e.task obj ≡ some t
    → (has obj (objects q) ≡ true) ⊎ ((i : ℕ) × (place i ≡ working obj))

-- `origin` reaches the pool that `p` stands for.
pub record Shadow (offset n : ℕ) (origin : ThreadPool) (p : HeapPool) : Type 0 where
  pub places : ℕ → Place
  pub queue : List (Ptr × ℕ)
  pub reach : ThreadPool.Reach n origin (abstracted p places queue)
  pub owned : Owned offset p.elements queue
  pub alike : Alike offset p.elements queue p.place places
  pub kept : Kept p.elements queue p.place

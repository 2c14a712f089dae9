-- ===== src/Threading/ThreadPool/OnHeap.antt =====
-- include/threading.hpp, `GenericThreadPool` with its queue on the heap: the elements are objects that
-- `push_function` links in the `IntrusiveSafeList`, and that a worker pops, runs and deletes.
pub mod Shadow
pub mod Controls
pub mod Workers
pub mod Tasks
pub mod Takes
pub mod Steps
pub mod Refines
pub mod Lifetimes
mod Tests
use fredlib.Base.{
  ℕ, ◌<◌, ◌≡◌, Bool, true, false, Option, none, some, List, [], ◌∷◌, ◌++◌, ◌==◌, if◌then◌else◌,
}
use fredlib.SafeList.Heap.{Ptr, null}
use fredlib.SafeList.Ops.{Popped, blocked, popped}
use fredlib.Threading.Threads.{at_thread}
use fredlib.Threading.ThreadControl.{ThreadControl}
use fredlib.Threading.ThreadPool
use fredlib.Threading.ThreadPool.{Place, top, taking, working, ThreadPool, new_thread_pool}
use fredlib.Threading.ThreadPool.Elements.{
  Elements, no_elements, Unused, push_element, pop_element, run_element,
}

-- `working p` says that the worker's `qe` is `p`. `started` and `pushed` only record tasks, as in `ThreadPool`.
pub record HeapPool : Type 0 where
  pub elements : Elements
  pub control : ThreadControl
  pub place : ℕ → Place
  pub started : List ℕ
  pub pushed : List ℕ

-- The constructor, with `n` threads.
unfoldable pub new_heap_pool : ℕ → HeapPool
new_heap_pool n = record {
  elements = no_elements;
  control = (new_thread_pool n).control;
  place = (new_thread_pool n).place;
  started = [];
  pushed = [];
}

-- What the steps look at that do not touch the queue, and what they leave.
abbrev pub frame : HeapPool → ThreadPool
frame p = record { queue = []; control = p.control; place = p.place; started = []; pushed = [] }

abbrev pub with_frame : HeapPool → ThreadPool → HeapPool
with_frame p f = record p { control = f.control; place = f.place }

-- All steps but those of `push_function` and the worker's with an element.
abbrev pub is_control : {n : ℕ} {s t : ThreadPool} → ThreadPool.Step n s t → Bool
is_control (ThreadPool.takes i lt e) = false
is_control (ThreadPool.ends i task lt e) = false
is_control (ThreadPool.pushes task) = false
is_control st = true

abbrev pub task_list : Option ℕ → List ℕ
task_list none = []
task_list (some t) = t ∷ []

-- `if (qe)`, with what `pop_front` has returned to worker `i`.
unfoldable pub taken : ℕ → Popped → HeapPool → HeapPool
taken i blocked p = p
taken i (popped obj) p =
    if obj == null then record p { place = at_thread i top p.place } else record p {
      place = at_thread i (working obj) p.place;
      started = p.started ++ task_list (p.elements.task obj);
    }

-- A step of one of `n` workers, or of another thread that calls members. A worker whose `pop_front` blocks
-- makes the call again when it is woken; `wakes` is such a wake-up.
pub data Step (offset n : ℕ) (p : HeapPool) : HeapPool → Type 0 where
  controls :
      {f : ThreadPool} (st : ThreadPool.Step n (frame p) f)
      → is_control st ≡ true
      → Step offset n p (with_frame p f)
  pushes :
      (obj : Ptr) (task : ℕ) (e : Elements)
      → Unused offset p.elements obj
      → push_element offset obj task p.elements ≡ some e
      → Step offset n p (record p { elements = e; pushed = p.pushed ++ task ∷ [] })
  takes :
      (i : ℕ) (expired : Bool) (r : Popped) (e : Elements)
      → i < n
      → p.place i ≡ taking
      → pop_element offset i expired p.elements ≡ some (r, e)
      → Step offset n p (taken i r (record p { elements = e }))
  runs :
      (i : ℕ) (obj : Ptr) (task : ℕ) (e : Elements)
      → i < n
      → p.place i ≡ working obj
      → run_element offset obj p.elements ≡ some (task, e)
      → Step offset n p (record p { elements = e; place = at_thread i top p.place })
  wakes :
      (xs ys : List ℕ) (i : ℕ)
      → p.elements.base.asleep ≡ xs ++ i ∷ ys
      → Step offset n p (record p {
        elements = record p.elements { base = record p.elements.base { asleep = xs ++ ys } };
      })

pub data Reach (offset n : ℕ) (p : HeapPool) : HeapPool → Type 0 where
  here : Reach offset n p p
  later : {q r : HeapPool} → Reach offset n p q → Step offset n q r → Reach offset n p r

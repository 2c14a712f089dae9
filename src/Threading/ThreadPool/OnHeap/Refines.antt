-- ===== src/Threading/ThreadPool/OnHeap/Refines.antt =====
-- What include/threading.hpp's `GenericThreadPool` promises with its queue on the heap.
use mathlib.Core.Bool.{false≢true}
use fredlib.Base.{
  ℕ, ◌≡◌, refl, sym, ap, ◌∙◌, Bool, true, false, ◌⊎◌, Option, some, List, [], ◌∷◌, arith, has,
  Bool-cases, inl, inr, ◌==◌, ==_iff,
}
use fredlib.SafeList.Heap.{Ptr, clean}
use fredlib.SafeList.Ops.{Popped}
use fredlib.SafeList.Intrusive.{u64_mod, get_hook}
use fredlib.SafeList.Objects.{AllBelow, HoldsObjects}
use fredlib.Threading.ThreadPool
use fredlib.Threading.ThreadPool.{
  Place, top, taking, working, finished, ThreadPool, new_thread_pool,
}
use fredlib.Threading.ThreadPool.Elements.{
  Elements, queue_of, Unused, push_element, pop_element, run_element,
}
use fredlib.Threading.ThreadPool.Elements.Owned.{
  objects, tasks, Sound, queue_hooks, Owned, has-objects,
}
use fredlib.Threading.ThreadPool.Elements.Calls.{push_element-Pushed}
use fredlib.Threading.ThreadPool.Elements.Pops.{pop_element-Taken, pop_element-Waited}
use fredlib.Threading.ThreadPool.Elements.Deletes.{run_element-Deleted}
use fredlib.Threading.ThreadPool.OnHeap.{HeapPool, new_heap_pool, Reach}
use fredlib.Threading.ThreadPool.OnHeap.Shadow.{is_working, abstracted}
use fredlib.Threading.ThreadPool.OnHeap.Steps.{reached-Shadow}

-- The pool on the heap has the state `s`: the list holds elements with the tasks of `s.queue`, in order, and
-- a worker that runs a task has an element with that task.
pub record Represents (offset : ℕ) (p : HeapPool) (s : ThreadPool) : Type 0 where
  pub queue : List (Ptr × ℕ)
  pub linked : HoldsObjects p.elements.hooks (queue_of offset p.elements) (objects queue)
  pub sound : Sound p.elements.task queue
  pub same_queue : tasks queue ≡ s.queue
  pub same_control : p.control ≡ s.control
  pub same_started : p.started ≡ s.started
  pub same_pushed : p.pushed ≡ s.pushed
  pub idle : (i : ℕ) → is_working (p.place i) ≡ false → s.place i ≡ p.place i
  pub busy :
      (i : ℕ) (obj : Ptr)
      → p.place i ≡ working obj
      → (t : ℕ) × (s.place i ≡ working t) × (p.elements.task obj ≡ some t)

Sound-AllBelow :
    (task : Ptr → Option ℕ) (q : List (Ptr × ℕ)) → Sound task q → AllBelow u64_mod (objects q)
Sound-AllBelow task [] s = tt
Sound-AllBelow task ((o, t) ∷ q) s = (s.1, Sound-AllBelow task q s.3)

Owned-HoldsObjects :
    (offset : ℕ) (e : Elements) (q : List (Ptr × ℕ))
    → Owned offset e q
    → HoldsObjects e.hooks (queue_of offset e) (objects q)
Owned-HoldsObjects offset e q owned = record {
  linked = owned.world.view;
  small = Sound-AllBelow e.task q owned.sound;
}

-- In every state that a `GenericThreadPool` of `n` workers reaches whose queue is an
-- `IntrusiveSafeList` of elements on the heap, where each `push_function` makes an element at an
-- unused address: there is a state that the pool with a plain sequence of tasks reaches, such that
-- the control, the recorded tasks and the places of the workers without an element are the same,
-- the list holds elements with the tasks of the sequence in its order, and each worker that has an
-- element runs the task of it.
pub heap_pool-refines :
    {offset n : ℕ} {p : HeapPool}
    → Reach offset n (new_heap_pool n) p
    → (s : ThreadPool) × ThreadPool.Reach n (new_thread_pool n) s × Represents offset p s
heap_pool-refines {offset} {n} {p} r =
    let s = reached-Shadow r in
    (
      abstracted p s.places s.queue,
      s.reach,
      record {
        queue = s.queue;
        linked = Owned-HoldsObjects offset p.elements s.queue s.owned;
        sound = s.owned.sound;
        same_queue = refl;
        same_control = refl;
        same_started = refl;
        same_pushed = refl;
        idle = s.alike.idle;
        busy = λ i obj at. let (t, works, held) = s.alike.busy i obj at in (t, works, held.meant);
      },
    )

-- No call on the elements is a fault.
pub record Ready (offset : ℕ) (p : HeapPool) : Type 0 where
  pub can_push :
      (obj : Ptr) (task : ℕ)
      → Unused offset p.elements obj
      → (e : Elements) × (push_element offset obj task p.elements ≡ some e)
  pub can_pop :
      (i : ℕ) (expired : Bool)
      → (r : Popped × Elements) × (pop_element offset i expired p.elements ≡ some r)
  pub can_run :
      (i : ℕ) (obj : Ptr)
      → p.place i ≡ working obj
      → (r : ℕ × Elements) × (run_element offset obj p.elements ≡ some r)

pops :
    (offset i : ℕ) (expired : Bool) (e : Elements) (q : List (Ptr × ℕ))
    → Owned offset e q
    → (r : Popped × Elements) × (pop_element offset i expired e ≡ some r)
pops offset i expired e [] owned =
    let (r, e', eq, w) = pop_element-Waited offset i expired e owned in ((r, e'), eq)
pops offset i expired e ((obj, t) ∷ q) owned =
    let (e', eq, w) = pop_element-Taken offset i expired e obj t q owned in (_, eq)

-- In every state that a `GenericThreadPool` with its queue on the heap reaches, no call on the
-- elements is undefined: `push_function` with an element at any unused address returns, so does
-- the `pop_front` of any worker, asleep or with a result, and so do the run of the task and the
-- deletion of the element that a worker has.
pub heap_pool-Ready :
    {offset n : ℕ} {p : HeapPool} → Reach offset n (new_heap_pool n) p → Ready offset p
heap_pool-Ready {offset} {n} {p} r =
    let s = reached-Shadow r in
    record {
      can_push = λ obj task unused.
          let (e, eq, w) = push_element-Pushed offset p.elements s.queue obj task s.owned unused in
          (e, eq);
      can_pop = λ i expired. pops offset i expired p.elements s.queue s.owned;
      can_run = λ i obj at.
          let (t, works, held) = s.alike.busy i obj at in
          let (e, eq, w) = run_element-Deleted offset p.elements s.queue obj t s.owned held in
          ((t, e), eq);
    }

-- Each element that is alive is in the list `queue`, or one worker holds it, and not both; and no other
-- object is in the list or held.
pub record Owners (offset : ℕ) (p : HeapPool) : Type 0 where
  pub queue : List Ptr
  pub linked : HoldsObjects p.elements.hooks (queue_of offset p.elements) queue
  pub alive : (obj : Ptr) → has obj queue ≡ true → (t : ℕ) × (p.elements.task obj ≡ some t)
  pub held :
      (i : ℕ) (obj : Ptr)
      → p.place i ≡ working obj
      → ((t : ℕ) × (p.elements.task obj ≡ some t))
        × (p.elements.hooks (get_hook offset obj) ≡ some clean)
        × (has obj queue ≡ false)
  pub alone : (i j : ℕ) (obj : Ptr) → p.place i ≡ working obj → p.place j ≡ working obj → i ≡ j
  pub owner :
      (obj : Ptr) (t : ℕ)
      → p.elements.task obj ≡ some t
      → (has obj queue ≡ true) ⊎ ((i : ℕ) × (p.place i ≡ working obj))

queued-alive :
    (task : Ptr → Option ℕ) (q : List (Ptr × ℕ)) (obj : Ptr)
    → Sound task q
    → has obj (objects q) ≡ true
    → (t : ℕ) × (task obj ≡ some t)
queued-alive task [] obj s i = absurd (false≢true i)
queued-alive task ((o, t) ∷ q) obj s i = elim (Bool-cases (obj == o)) [
  | inl hit ↦ (t, ap task ((==_iff obj o).0 hit) ∙ s.2)
  | inr miss ↦ queued-alive task q obj s.3 (ground arith)
]

unlinked-out :
    (offset : ℕ) (q : List (Ptr × ℕ)) (obj : Ptr)
    → has (get_hook offset obj) (queue_hooks offset q) ≡ false
    → has obj (objects q) ≡ false
unlinked-out offset q obj out = elim (Bool-cases (has obj (objects q))) [
  | inl i ↦ absurd (false≢true (sym out ∙ has-objects offset q obj i))
  | inr o ↦ o
]

-- In every state that a `GenericThreadPool` with its queue on the heap reaches: each element that
-- is alive is in the list, or a worker has it; every element that is in the list or that a worker
-- has is alive; an element that a worker has is not in the list and its hook is clean, and no
-- other worker has it.
pub heap_pool-Owners :
    {offset n : ℕ} {p : HeapPool} → Reach offset n (new_heap_pool n) p → Owners offset p
heap_pool-Owners {offset} {n} {p} r =
    let s = reached-Shadow r in
    record {
      queue = objects s.queue;
      linked = Owned-HoldsObjects offset p.elements s.queue s.owned;
      alive = λ obj i. queued-alive p.elements.task s.queue obj s.owned.sound i;
      held = λ i obj at.
          let (t, works, held) = s.alike.busy i obj at in
          ((t, held.meant), held.there, unlinked-out offset s.queue obj held.unlinked);
      alone = s.alike.apart;
      owner = s.kept;
    }

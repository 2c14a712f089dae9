-- ===== src/Threading/ThreadPool/Elements.antt =====
-- include/threading.hpp, `GenericThreadPool`: the queue elements as objects that `push_function` creates and a
-- worker deletes, with their hooks on the heap of the list.
pub mod Owned
pub mod Calls
pub mod Pops
pub mod Deletes
use fredlib.Base.{ℕ, ◌<◌, ◌≡◌, ◌≢◌, Bool, Option, none, some, ◌==◌, if◌then◌else◌}
use fredlib.SafeList.Heap.{Ptr, null, clean, ListHook, Heap, Outcome, fault, ok, write}
use fredlib.SafeList.Ops.{SafeList, Popped, new_list}
use fredlib.SafeList.Intrusive
use fredlib.SafeList.Intrusive.{u64_mod, IntrusiveSafeList, get_hook}

-- `_q` with the objects of the heap: the hooks, and the member `task` of each element. A task is a number.
pub record Elements : Type 0 where
  pub base : SafeList
  pub hooks : Heap
  pub task : Ptr → Option ℕ

-- The pool starts with an empty list and no elements.
abbrev pub no_elements : Elements
no_elements = record { base = new_list; hooks = λ p. none; task = λ p. none }

-- `offset` is that of `&QueueElement::hook`.
abbrev pub queue_of : (offset : ℕ) → Elements → IntrusiveSafeList
queue_of offset e = record { base = e.base; offset = offset }

-- What `new` relies on: memory for an element that no object occupies.
pub record Unused (offset : ℕ) (e : Elements) (obj : Ptr) : Type 0 where
  pub not_null : obj ≢ null
  pub small : obj < u64_mod
  pub hook_not_null : get_hook offset obj ≢ null
  pub no_hook : e.hooks (get_hook offset obj) ≡ none
  pub no_task : e.task obj ≡ none

-- `new QueueElement`, with its hook as `listHook` initialises it, and `qe->task = new …`.
unfoldable pub new_element : (offset : ℕ) → Ptr → (task : ℕ) → Elements → Elements
new_element offset obj task e = record e {
  hooks = write e.hooks (get_hook offset obj) clean;
  task = λ p. if p == obj then some task else e.task p;
}

-- `none` stands for undefined behaviour.
abbrev pub after_push : Elements → Outcome (Bool × IntrusiveSafeList) → Option Elements
after_push e fault = none
after_push e (ok r h) = some (record e { base = r.1.base; hooks = h })

-- `push_function`, with the new element at `obj`.
unfoldable pub push_element : (offset : ℕ) → Ptr → (task : ℕ) → Elements → Option Elements
unfolding new_element
push_element offset obj task e =
    let e' = new_element offset obj task e in
    after_push e' (Intrusive.push_back obj (queue_of offset e') e'.hooks)

abbrev pub after_pop : Elements → Outcome (Popped × IntrusiveSafeList) → Option (Popped × Elements)
after_pop e fault = none
after_pop e (ok r h) = some (r.0, record e { base = r.1.base; hooks = h })

-- `_q.pop_front(100)` by a worker.
unfoldable pub pop_element :
    (offset worker : ℕ) (expired : Bool) → Elements → Option (Popped × Elements)
pop_element offset worker expired e =
    after_pop e (Intrusive.pop_front worker 100 expired (queue_of offset e) e.hooks)

-- An object's memory is given back.
abbrev pub forget {ℓ} : {A : Type ℓ} → Ptr → (Ptr → Option A) → Ptr → Option A
forget p f q = if q == p then none else f q

abbrev pub freed : (offset : ℕ) → Ptr → Elements → Option ListHook → Option Elements
freed offset obj e none = none
freed offset obj e (some n) =
    some (record e { hooks = forget (get_hook offset obj) e.hooks; task = forget obj e.task })

-- `delete qe`: the element must be there.
unfoldable pub delete_element : (offset : ℕ) → Ptr → Elements → Option Elements
delete_element offset obj e = freed offset obj e (e.hooks (get_hook offset obj))

abbrev pub ran : Option ℕ → Option Elements → Option (ℕ × Elements)
ran (some task) (some e) = some (task, e)
ran none e = none
ran (some task) none = none

-- `(*qe->task)(); delete qe;`: the task that was run, and the elements that are left.
unfoldable pub run_element : (offset : ℕ) → Ptr → Elements → Option (ℕ × Elements)
unfolding delete_element
run_element offset obj e = ran (e.task obj) (delete_element offset obj e)

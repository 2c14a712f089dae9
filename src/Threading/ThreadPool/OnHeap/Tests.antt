-- ===== src/Threading/ThreadPool/OnHeap/Tests.antt =====
-- Runs of `GenericThreadPool` of include/threading.hpp with one worker and its queue on the heap. An element's
-- hook stands 8 bytes behind its start.
use fredlib.Base.{ℕ, ◌≡◌, refl, Bool, true, false, Option, none, some, [], ◌∷◌, ◌++◌, arith}
use fredlib.Base.Int.{◌+ℤ◌, ◌-ℤ◌}
use fredlib.SafeList.Heap
use fredlib.SafeList.Heap.{Ptr}
use fredlib.SafeList.Hook
use fredlib.SafeList.Ops
use fredlib.SafeList.Ops.{Popped, blocked}
use fredlib.SafeList.Intrusive
use fredlib.Threading.FanInPoint
use fredlib.Threading.PausePoint
use fredlib.Threading.ThreadControl
use fredlib.Threading.ThreadPool
use fredlib.Threading.ThreadPool.{ThreadPool, working, top}
use fredlib.Threading.ThreadPool.Elements
use fredlib.Threading.ThreadPool.Elements.{
  Elements, no_elements, Unused, push_element, pop_element, run_element,
}
use fredlib.Threading.ThreadPool.OnHeap.{
  HeapPool, new_heap_pool, frame, with_frame, taken, controls, pushes, takes, runs, Reach, here,
  later,
}
use fredlib.Threading.ThreadPool.OnHeap.Refines.{
  Represents, Ready, Owners, heap_pool-refines, heap_pool-Ready, heap_pool-Owners,
}
use fredlib.Threading.ThreadPool.OnHeap.Lifetimes.{heap_pool-emptied, stop-leaks}
use fredlib.Threading.Threads.{at_thread}
use fredlib.Threading.ThreadPool.OnHeap.Shadow.{is_working}

abbrev is_some {ℓ} : {A : Type ℓ} → Option A → Bool
is_some none = false
is_some (some a) = true

abbrev from {ℓ} : {A : Type ℓ} → A → Option A → A
from a none = a
from a (some b) = b

from-some : {A : Type 0} (a : A) (m : Option A) → is_some m ≡ true → m ≡ some (from a m)
from-some a none e = absurd (cc e)
from-some a (some b) e = refl

-- `push_function` with the element at `obj`.
abbrev push_at : Ptr → ℕ → HeapPool → HeapPool
push_at obj task p = record p {
  elements = from no_elements (push_element 8 obj task p.elements);
  pushed = p.pushed ++ task ∷ [];
}

abbrev popped_by : HeapPool → Popped × Elements
popped_by p = from (blocked, no_elements) (pop_element 8 0 false p.elements)

abbrev take : HeapPool → HeapPool
take p = taken 0 (popped_by p).0 (record p { elements = (popped_by p).1 })

abbrev run_at : Ptr → HeapPool → HeapPool
run_at obj p = record p {
  elements = (from (0, no_elements) (run_element 8 obj p.elements)).1;
  place = at_thread 0 top p.place;
}

abbrev control : (ThreadPool → ThreadPool) → HeapPool → HeapPool
control f p = with_frame p (f (frame p))

abbrev pool : HeapPool
pool = new_heap_pool 1

abbrev one_pushed : HeapPool
one_pushed = push_at 16 7 pool

one_pushed-Reach : Reach 8 1 pool one_pushed
unfolding new_heap_pool push_element Elements.new_element Intrusive.push_back Intrusive.get_hook
    Ops.push_back Heap.write Ops.is_empty Hook.link_after Heap.load Heap.set_prev Heap.set_next
    Heap.when_set
one_pushed-Reach = later here (pushes 16 7 _ unused (from-some no_elements _ refl))
  where
    unused : Unused 8 pool.elements 16
    unused = record {
      not_null = omega arith;
      small = omega arith;
      hook_not_null = omega arith;
      no_hook = refl;
      no_task = refl;
    }

-- The worker takes the element while another one is pushed.
abbrev taking_it : HeapPool
taking_it = control (λ s. ThreadPool.check_stop 0 (ThreadPool.ask_pause 0 s)) one_pushed

abbrev one_taken : HeapPool
one_taken = push_at 64 8 (take taking_it)

one_taken-Reach : Reach 8 1 pool one_taken
unfolding new_heap_pool push_element Elements.new_element Intrusive.push_back Intrusive.get_hook
    Ops.push_back Heap.write Ops.is_empty Hook.link_after Heap.load Heap.set_prev Heap.set_next
    Heap.when_set pop_element Intrusive.pop_front Ops.pop_front Ops.must_wait Ops.take_front
    Hook.unlink Hook.relink Hook.reset Intrusive.parent_of Intrusive.get_parent taken
    ThreadPool.new_thread_pool ThreadPool.add_threads ThreadPool.ask_pause ThreadPool.check_stop
    PausePoint.pause_if_required ThreadControl.add_thread PausePoint.add_thread
one_taken-Reach =
    later
      (later
        (later (later one_pushed-Reach (controls (ThreadPool.asks 0 (omega arith) refl refl) refl))
          (controls (ThreadPool.checks 0 (omega arith) refl) refl))
        (takes 0 false _ _ (omega arith) refl (from-some (blocked, no_elements) _ refl)))
      (pushes 64 8 _ unused (from-some no_elements _ refl))
  where
    unused : Unused 8 (take taking_it).elements 64
    unused = record {
      not_null = omega arith;
      small = omega arith;
      hook_not_null = omega arith;
      no_hook = refl;
      no_task = refl;
    }

heap_pool-refines_example :
    (s : ThreadPool) × ThreadPool.Reach 1 (ThreadPool.new_thread_pool 1) s
    × Represents 8 one_taken s
heap_pool-refines_example = heap_pool-refines one_taken-Reach

heap_pool-Ready_example : Ready 8 one_taken
heap_pool-Ready_example = heap_pool-Ready one_taken-Reach

heap_pool-Owners_example : Owners 8 one_taken
heap_pool-Owners_example = heap_pool-Owners one_taken-Reach

-- The worker takes the one element, runs its task and deletes it.
abbrev one_run : HeapPool
one_run = run_at 16 (take taking_it)

one_run-Reach : Reach 8 1 pool one_run
unfolding new_heap_pool push_element Elements.new_element Intrusive.push_back Intrusive.get_hook
    Ops.push_back Heap.write Ops.is_empty Hook.link_after Heap.load Heap.set_prev Heap.set_next
    Heap.when_set pop_element Intrusive.pop_front Ops.pop_front Ops.must_wait Ops.take_front
    Hook.unlink Hook.relink Hook.reset Intrusive.parent_of Intrusive.get_parent taken
    ThreadPool.new_thread_pool ThreadPool.add_threads ThreadPool.ask_pause ThreadPool.check_stop
    PausePoint.pause_if_required ThreadControl.add_thread PausePoint.add_thread run_element
    Elements.delete_element
one_run-Reach =
    later
      (later
        (later (later one_pushed-Reach (controls (ThreadPool.asks 0 (omega arith) refl refl) refl))
          (controls (ThreadPool.checks 0 (omega arith) refl) refl))
        (takes 0 false _ _ (omega arith) refl (from-some (blocked, no_elements) _ refl)))
      (runs 0 16 _ _ (omega arith) refl (from-some (0, no_elements) _ refl))

heap_pool-emptied_example : one_run.elements.task 16 ≡ none
unfolding new_heap_pool push_element Elements.new_element Intrusive.push_back Intrusive.get_hook
    Ops.push_back Heap.write Ops.is_empty Hook.link_after Heap.load Heap.set_prev Heap.set_next
    Heap.when_set pop_element Intrusive.pop_front Ops.pop_front Ops.must_wait Ops.take_front
    Hook.unlink Hook.relink Hook.reset Intrusive.parent_of Intrusive.get_parent taken
    ThreadPool.new_thread_pool ThreadPool.add_threads ThreadPool.ask_pause ThreadPool.check_stop
    PausePoint.pause_if_required ThreadControl.add_thread PausePoint.add_thread run_element
    Elements.delete_element
heap_pool-emptied_example = heap_pool-emptied one_run-Reach refl (λ i. idle i) 16
  where
    idle : (i : ℕ) → is_working (one_run.place i) ≡ false
    idle i = ground arith

-- The worker leaves at the call of `stop` and the element stays.
abbrev stopped : HeapPool
stopped = control (ThreadPool.with_fan (FanInPoint.wait 0)) (
    control
      (λ s.
        ThreadPool.leave 0 (ThreadPool.check_stop 0 (ThreadPool.stop (ThreadPool.ask_pause 0 s))))
      one_pushed)

stopped-Reach : Reach 8 1 pool stopped
unfolding new_heap_pool push_element Elements.new_element Intrusive.push_back Intrusive.get_hook
    Ops.push_back Heap.write Ops.is_empty Hook.link_after Heap.load Heap.set_prev Heap.set_next
    Heap.when_set ThreadPool.new_thread_pool ThreadPool.add_threads ThreadPool.ask_pause
    ThreadPool.check_stop PausePoint.pause_if_required ThreadControl.add_thread
    PausePoint.add_thread ThreadPool.leave ThreadPool.stop FanInPoint.done FanInPoint.notify_all
    FanInPoint.add_thread
stopped-Reach =
    later
      (later
        (later
          (later
            (later one_pushed-Reach (controls (ThreadPool.asks 0 (omega arith) refl refl) refl))
            (controls ThreadPool.stops refl))
          (controls (ThreadPool.checks 0 (omega arith) refl) refl))
        (controls (ThreadPool.leaves 0 (omega arith) refl) refl))
      (controls (ThreadPool.waits 0 refl) refl)

stop-leaks_example :
    ((push_at 64 8 stopped).started ≡ stopped.started)
    × ((obj : Ptr) (t : ℕ)
        → stopped.elements.task obj ≡ some t
        → (push_at 64 8 stopped).elements.task obj ≡ some t)
unfolding new_heap_pool push_element Elements.new_element Intrusive.push_back Intrusive.get_hook
    Ops.push_back Heap.write Ops.is_empty Hook.link_after Heap.load Heap.set_prev Heap.set_next
    Heap.when_set Hook.unlink Hook.relink Hook.reset ThreadPool.new_thread_pool
    ThreadPool.add_threads ThreadPool.ask_pause ThreadPool.check_stop PausePoint.pause_if_required
    ThreadControl.add_thread PausePoint.add_thread ThreadPool.leave ThreadPool.stop FanInPoint.done
    FanInPoint.notify_all FanInPoint.add_thread FanInPoint.wait ◌+ℤ◌ ◌-ℤ◌
stop-leaks_example =
    stop-leaks stopped-Reach 0 refl
      (later here (pushes 64 8 _ unused (from-some no_elements _ refl)))
  where
    unused : Unused 8 stopped.elements 64
    unused = record {
      not_null = omega arith;
      small = omega arith;
      hook_not_null = omega arith;
      no_hook = refl;
      no_task = refl;
    }

-- ===== src/Threading/ThreadPool/OnHeap/Steps.antt =====
-- The steps of include/threading.hpp's `GenericThreadPool` with its queue on the heap, and the pool
-- that it stands for.
use fredlib.Base.{ℕ, refl, ap, []}
use mathlib.Core.Bool.{false≢true}
use fredlib.SafeList.View.{new_list-IsList}
use fredlib.Threading.ThreadPool
use fredlib.Threading.ThreadPool.{Place, top, working, ThreadPool, new_thread_pool}
use fredlib.Threading.ThreadPool.Elements.{no_elements}
use fredlib.Threading.ThreadPool.Elements.Owned.{Owned}
use fredlib.Threading.ThreadPool.OnHeap.{
  HeapPool, new_heap_pool, Step, controls, pushes, takes, runs, wakes, Reach, here, later,
}
use fredlib.Threading.ThreadPool.OnHeap.Shadow.{is_working, abstracted, Shadow}
use fredlib.Threading.ThreadPool.OnHeap.Controls.{controls-Shadow}
use fredlib.Threading.ThreadPool.OnHeap.Tasks.{pushes-Shadow, runs-Shadow}
use fredlib.Threading.ThreadPool.OnHeap.Takes.{takes-Shadow, wakes-Shadow}

no_elements-Owned : (offset : ℕ) → Owned offset no_elements []
no_elements-Owned offset = record {
  world = record {
    view = new_list-IsList _;
    rest = λ p n at o. absurd (cc at);
    alive = λ p i. absurd (false≢true i);
  };
  sound = tt;
}

pub new_heap_pool-Shadow : (offset n : ℕ) → Shadow offset n (new_thread_pool n) (new_heap_pool n)
unfolding new_heap_pool new_thread_pool
new_heap_pool-Shadow offset n = record {
  places = λ i. top;
  queue = [];
  reach = ThreadPool.here;
  owned = no_elements-Owned offset;
  alike = record {
    idle = λ i out. refl;
    busy = λ i obj at. absurd (false≢true (ap is_working at));
    apart = λ i j obj at at'. absurd (false≢true (ap is_working at));
  };
  kept = λ obj t meant. absurd (cc meant);
}

module _ (offset n : ℕ) (origin : ThreadPool)
    (begun : ThreadPool.Reach n (new_thread_pool n) origin) where
  Step-Shadow :
      {p q : HeapPool} → Step offset n p q → Shadow offset n origin p → Shadow offset n origin q
  Step-Shadow {p} (controls st c) s = controls-Shadow offset n origin begun p s st c
  Step-Shadow {p} (pushes obj task e unused eq) s =
      pushes-Shadow offset n origin p s obj task e unused eq
  Step-Shadow {p} (takes i expired r e lt at eq) s =
      takes-Shadow offset n origin p i expired r e lt at eq s
  Step-Shadow {p} (runs i obj task e lt at eq) s =
      runs-Shadow offset n origin p s i obj task e lt at eq
  Step-Shadow {p} (wakes xs ys i slept) s = wakes-Shadow offset n origin p xs ys i slept s

  pub Reach-Shadow :
      {p q : HeapPool} → Reach offset n p q → Shadow offset n origin p → Shadow offset n origin q
  Reach-Shadow here s = s
  Reach-Shadow (later r st) s = Step-Shadow st (Reach-Shadow r s)

-- What a pool that was just constructed comes to stand for.
pub reached-Shadow :
    {offset n : ℕ} {p : HeapPool}
    → Reach offset n (new_heap_pool n) p
    → Shadow offset n (new_thread_pool n) p
reached-Shadow {offset} {n} r =
    Reach-Shadow offset n (new_thread_pool n) ThreadPool.here r (new_heap_pool-Shadow offset n)

-- It stands for itself from then on.
pub rooted-Shadow :
    {offset n : ℕ} {p : HeapPool} {origin : ThreadPool} (s : Shadow offset n origin p)
    → Shadow offset n (abstracted p s.places s.queue) p
rooted-Shadow s = record {
  places = s.places;
  queue = s.queue;
  reach = ThreadPool.here;
  owned = s.owned;
  alike = s.alike;
  kept = s.kept;
}

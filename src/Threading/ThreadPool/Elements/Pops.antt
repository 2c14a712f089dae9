-- ===== src/Threading/ThreadPool/Elements/Pops.antt =====
-- What a worker's `pop_front` does to the queue elements of include/threading.hpp's `GenericThreadPool`.
use mathlib.Core.Bool.{false≢true}
use fredlib.Base.{
  ℕ, ◌≡◌, ◌≢◌, refl, sym, ap, ◌∙◌, Bool, true, false, ◌⊎◌, some, List, [], ◌∷◌, arith, has, inl,
  inr,
}
use fredlib.SafeList.Heap.{Ptr, null, Heap, proceed, pure}
use fredlib.SafeList.Ops.{SafeList, Popped, popped, blocked}
use fredlib.SafeList.World.{World, World-Shrunk}
use fredlib.SafeList.Remove.{pop_front-first, pop-waits, pop-expires}
use fredlib.SafeList.Intrusive
use fredlib.SafeList.Intrusive.{u64_mod, IntrusiveSafeList, get_hook, get_parent, parent_of}
use fredlib.SafeList.Objects.{parent_of-hook}
use fredlib.Threading.ThreadPool.Elements.{Elements, queue_of, pop_element, after_pop}
use fredlib.Threading.ThreadPool.Elements.Owned.{queue_hooks, Owned, Held}
use fredlib.Threading.ThreadPool.Elements.Calls.{outcome_of, has-here}

-- What a worker's `pop_front` leaves when it returns an element.
pub record Taken (offset : ℕ) (e : Elements) (obj : Ptr) (t : ℕ) (q : List (Ptr × ℕ))
    (e' : Elements) : Type 0 where
  pub owned : Owned offset e' q
  pub held : Held offset e' q obj t
  pub others :
      (o : Ptr) (u : ℕ) → Held offset e ((obj, t) ∷ q) o u → (o ≢ obj) × Held offset e' q o u
  pub same_tasks : e'.task ≡ e.task

pub pop_element-Taken :
    (offset worker : ℕ) (expired : Bool) (e : Elements) (obj : Ptr) (t : ℕ) (q : List (Ptr × ℕ))
    → Owned offset e ((obj, t) ∷ q)
    → (e' : Elements) × (pop_element offset worker expired e ≡ some (popped obj, e'))
      × Taken offset e obj t q e'
unfolding pop_element Intrusive.pop_front
pop_element-Taken offset worker expired e obj t q owned =
    let hs = queue_hooks offset q in
    let first = get_hook offset obj in
    let w = owned.world in
    let (live, small, meant, sound) = owned.sound in
    let ((r, l), g, eq, (got, shrunk)) =
      outcome_of (pop_front-first e.hooks e.base worker 100 expired first hs w.view) in
    let world : World [] g l hs =
      World-Shrunk [] e.hooks e.base (first ∷ hs) w [] first hs g l refl shrunk in
    (
      record e { base = l; hooks = g },
      ap
            (λ o. after_pop e (
              proceed o
                (λ r. pure (parent_of offset r.0, record (queue_of offset e) { base = r.1 }))))
            eq
          ∙ ap (λ p. some (p, record e { base = l; hooks = g }))
              (ap (parent_of offset) got ∙ parent_of-hook offset obj small (w.view.chain.0)),
      record {
        owned = record { world = world; sound = sound };
        held = record {
          not_null = live;
          small = small;
          there = shrunk.cleaned;
          unlinked = w.view.distinct.0;
          meant = meant;
        };
        others = λ o u held. (
          λ same. false≢true (
              sym held.unlinked
              ∙ ap (λ z. has (get_hook offset z) (first ∷ hs)) same
              ∙ has-here first hs),
          record {
            not_null = held.not_null;
            small = held.small;
            there = shrunk.same (get_hook offset o) held.unlinked ∙ held.there;
            unlinked = ground (arith, held.unlinked);
            meant = held.meant;
          },
        );
        same_tasks = refl;
      },
    )

-- What it leaves on an empty queue: the worker sleeps, or, after the timeout, gets no element.
pub record Waited (offset : ℕ) (e : Elements) (r : Popped) (e' : Elements) : Type 0 where
  pub owned : Owned offset e' []
  pub none_popped : (r ≡ blocked) ⊎ (r ≡ popped null)
  pub others : (o : Ptr) (u : ℕ) → Held offset e [] o u → Held offset e' [] o u
  pub same_tasks : e'.task ≡ e.task

World-asleep :
    (h : Heap) (l : SafeList) (thread : ℕ)
    → World [] h l []
    → World [] h (record l { asleep = thread ∷ l.asleep }) []
World-asleep h l thread w = record {
  view = record {
    chain = tt;
    distinct = tt;
    head = w.view.head;
    tail = w.view.tail;
    size = w.view.size;
    awake = λ e. absurd (false≢true (sym e));
  };
  rest = w.rest;
  alive = w.alive;
}

pub pop_element-Waited :
    (offset worker : ℕ) (expired : Bool) (e : Elements)
    → Owned offset e []
    → (r : Popped) × (e' : Elements) × (pop_element offset worker expired e ≡ some (r, e'))
      × Waited offset e r e'
unfolding pop_element Intrusive.pop_front parent_of
pop_element-Waited offset worker true e owned =
    let (eq, _) = pop-expires e.hooks e.base worker 100 true owned.world.view (omega arith) refl in
    (
      popped null,
      e,
      ap
          (λ o. after_pop e (
            proceed o
              (λ r. pure (parent_of offset r.0, record (queue_of offset e) { base = r.1 }))))
          eq,
      record {
        owned = owned;
        none_popped = inr refl;
        others = λ o u held. held;
        same_tasks = refl;
      },
    )
pop_element-Waited offset worker false e owned =
    let (eq, _) = pop-waits e.hooks e.base worker 100 false owned.world.view (inr refl) in
    (
      blocked,
      record e { base = record e.base { asleep = worker ∷ e.base.asleep } },
      ap
          (λ o. after_pop e (
            proceed o
              (λ r. pure (parent_of offset r.0, record (queue_of offset e) { base = r.1 }))))
          eq,
      record {
        owned = record { world = World-asleep e.hooks e.base worker owned.world; sound = tt };
        none_popped = inl refl;
        others = λ o u held. record {
          not_null = held.not_null;
          small = held.small;
          there = held.there;
          unlinked = held.unlinked;
          meant = held.meant;
        };
        same_tasks = refl;
      },
    )

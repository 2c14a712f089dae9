-- ===== src/Threading/ThreadPool/OnHeap/Tasks.antt =====
-- The steps of include/threading.hpp's `GenericThreadPool` that push an element or delete one, beside
-- those of the pool whose queue is a sequence.
use fredlib.Base.{
  ℕ, ◌<◌, ◌≡◌, sym, ap, ◌∙◌, subst, true, ◌||◌, Option, some, List, [], ◌∷◌, ◌++◌, arith, has,
  has-append, inl, inr,
}
use fredlib.SafeList.Heap.{Ptr}
use fredlib.Threading.Threads.{at_thread}
use fredlib.Threading.ThreadPool
use fredlib.Threading.ThreadPool.{
  Place, top, taking, working, ThreadPool, new_thread_pool, take_from, take_task, end_task,
  push_function,
}
use fredlib.Threading.ThreadPool.Elements.{Elements, Unused, push_element, run_element}
use fredlib.Threading.ThreadPool.Elements.Owned.{objects, Held}
use fredlib.Threading.ThreadPool.Elements.Calls.{
  objects-append, tasks-append, Pushed, push_element-Pushed,
}
use fredlib.Threading.ThreadPool.Elements.Deletes.{Deleted, run_element-Deleted}
use fredlib.Threading.ThreadPool.OnHeap.{HeapPool}
use fredlib.Threading.ThreadPool.OnHeap.Shadow.{abstracted, Alike, Shadow}
use fredlib.Threading.ThreadPool.OnHeap.Workers.{delete-Alike, delete-Kept}

-- Elements that all workers still hold keep the likeness.
pub other-Alike :
    (offset : ℕ) (e e' : Elements) (q q' : List (Ptr × ℕ)) (place places : ℕ → Place)
    → Alike offset e q place places
    → ((o : Ptr) (u : ℕ) → Held offset e q o u → Held offset e' q' o u)
    → Alike offset e' q' place places
other-Alike offset e e' q q' place places alike keep = record {
  idle = alike.idle;
  busy = λ i obj at. let (t, works, held) = alike.busy i obj at in (t, works, keep obj t held);
  apart = alike.apart;
}

pub some-injective : {A : Type 0} {a b : A} → ◌≡◌ {A = Option A} (some a) (some b) → a ≡ b
some-injective e = cc

module _ (offset n : ℕ) (origin : ThreadPool) (p : HeapPool) (s : Shadow offset n origin p) where
  abbrev seen : ThreadPool
  seen = abstracted p s.places s.queue

  Pushed-Shadow :
      (obj : Ptr) (task : ℕ) (e : Elements)
      → Pushed offset p.elements s.queue obj task e
      → Shadow offset n origin (record p { elements = e; pushed = p.pushed ++ task ∷ [] })
  unfolding push_function
  Pushed-Shadow obj task e pushed = record {
    places = s.places;
    queue = s.queue ++ (obj, task) ∷ [];
    reach =
        subst
          (λ q.
            ThreadPool.Reach n origin (record seen { queue = q; pushed = p.pushed ++ task ∷ [] }))
          (sym (tasks-append s.queue ((obj, task) ∷ [])))
          (ThreadPool.later s.reach (ThreadPool.pushes task));
    owned = pushed.owned;
    alike = other-Alike offset p.elements e s.queue _ p.place s.places s.alike pushed.others;
    kept = λ o u meant. elim (pushed.only_new o u meant) [
      | inl new ↦ inl (queued o (ground (arith, new)))
      | inr old ↦ elim (s.kept o u old) [
        | inl i ↦ inl (queued o (ground (arith, i)))
        | inr held ↦ inr held
      ]
    ];
  }
    where
      queued :
          (o : Ptr)
          → (has o (objects s.queue) || has o (obj ∷ [])) ≡ true
          → has o (objects (s.queue ++ (obj, task) ∷ [])) ≡ true
      queued o i =
          ap (has o) (objects-append s.queue ((obj, task) ∷ []))
          ∙ has-append o (objects s.queue) (obj ∷ [])
          ∙ i

  pub pushes-Shadow :
      (obj : Ptr) (task : ℕ) (e : Elements)
      → Unused offset p.elements obj
      → push_element offset obj task p.elements ≡ some e
      → Shadow offset n origin (record p { elements = e; pushed = p.pushed ++ task ∷ [] })
  pushes-Shadow obj task e unused eq =
      let (e', eq', pushed) =
        push_element-Pushed offset p.elements s.queue obj task s.owned unused in
      subst
        (λ z. Shadow offset n origin (record p { elements = z; pushed = p.pushed ++ task ∷ [] }))
        (some-injective (sym eq' ∙ eq)) (Pushed-Shadow obj task e' pushed)

  Deleted-Shadow :
      (i : ℕ) (obj : Ptr) (e : Elements)
      → i < n
      → p.place i ≡ working obj
      → Deleted offset p.elements s.queue obj e
      → Shadow offset n origin (record p { elements = e; place = at_thread i top p.place })
  unfolding end_task
  Deleted-Shadow i obj e lt at deleted =
      let (t, works, held) = s.alike.busy i obj at in
      record {
        places = at_thread i top s.places;
        queue = s.queue;
        reach = ThreadPool.later s.reach (ThreadPool.ends i t lt works);
        owned = deleted.owned;
        alike = delete-Alike offset p.elements s.queue p.place s.places i obj e s.alike at deleted;
        kept = delete-Kept offset p.elements s.queue p.place i obj e s.kept at deleted;
      }

  pub runs-Shadow :
      (i : ℕ) (obj : Ptr) (task : ℕ) (e : Elements)
      → i < n
      → p.place i ≡ working obj
      → run_element offset obj p.elements ≡ some (task, e)
      → Shadow offset n origin (record p { elements = e; place = at_thread i top p.place })
  runs-Shadow i obj task e lt at eq =
      let (t, works, held) = s.alike.busy i obj at in
      let (e', eq', deleted) = run_element-Deleted offset p.elements s.queue obj t s.owned held in
      subst
        (λ z. Shadow offset n origin (record p { elements = z; place = at_thread i top p.place }))
        (ap (λ r. r.1) (some-injective (sym eq' ∙ eq))) (Deleted-Shadow i obj e' lt at deleted)

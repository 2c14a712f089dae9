-- ===== src/Threading/ThreadPool/OnHeap/Takes.antt =====
-- A worker of include/threading.hpp's `GenericThreadPool` pops an element, or waits for one, and is woken.
use fredlib.Base.{
  ℕ, ◌<◌, ◌≡◌, ◌≢◌, refl, sym, ap, ◌∙◌, subst, Bool, false, some, List, [], ◌∷◌, ◌++◌, ◌==◌,
  if◌then◌else◌, arith, inl, inr,
}
use fredlib.SafeList.Heap.{Ptr, null, Heap}
use fredlib.SafeList.Ops.{SafeList, Popped, popped}
use fredlib.Threading.Threads.{at_thread}
use fredlib.Threading.ThreadPool
use fredlib.Threading.ThreadPool.{
  Place, top, taking, working, ThreadPool, new_thread_pool, take_from, take_task, end_task,
  push_function,
}
use fredlib.Threading.ThreadPool.Elements.{Elements, pop_element}
use fredlib.Threading.ThreadPool.Elements.Owned.{Owned, Held}
use fredlib.Threading.ThreadPool.Elements.Pops.{
  Taken, pop_element-Taken, Waited, pop_element-Waited,
}
use fredlib.Threading.ThreadPool.OnHeap.{HeapPool, task_list, taken}
use fredlib.Threading.ThreadPool.OnHeap.Shadow.{is_working, abstracted, Alike, Kept, Shadow}
use fredlib.Threading.ThreadPool.OnHeap.Workers.{move-Alike, move-Kept, take-Alike, take-Kept}
use fredlib.Threading.ThreadPool.OnHeap.Tasks.{other-Alike, some-injective}
use fredlib.SafeList.World.{World}

-- The same elements with another list.
abbrev with_base : Elements → SafeList → Elements
with_base e l = record e { base = l }

Held-base :
    (offset : ℕ) (e : Elements) (q : List (Ptr × ℕ)) (l : SafeList) (o : Ptr) (u : ℕ)
    → Held offset e q o u
    → Held offset (with_base e l) q o u
Held-base offset e q l o u held = record {
  not_null = held.not_null;
  small = held.small;
  there = held.there;
  unlinked = held.unlinked;
  meant = held.meant;
}

inner-nonempty : (xs ys : List ℕ) (i : ℕ) → (xs ++ i ∷ ys) ≢ []
inner-nonempty [] ys i e = cc
inner-nonempty (x ∷ xs) ys i e = cc

World-woken :
    (h : Heap) (l : SafeList) (hs : List Ptr) (xs ys : List ℕ) (i : ℕ)
    → l.asleep ≡ xs ++ i ∷ ys
    → World [] h l hs
    → World [] h (record l { asleep = xs ++ ys }) hs
World-woken h l hs xs ys i slept w = record {
  view = record {
    chain = w.view.chain;
    distinct = w.view.distinct;
    head = w.view.head;
    tail = w.view.tail;
    size = w.view.size;
    awake = λ full. absurd (inner-nonempty xs ys i (sym slept ∙ w.view.awake full));
  };
  rest = w.rest;
  alive = w.alive;
}

abbrev with_task : ℕ → Ptr → HeapPool → List ℕ → HeapPool
with_task i obj p ts = record p {
  place = at_thread i (working obj) p.place;
  started = p.started ++ ts;
}

taken-some :
    (i : ℕ) (obj : Ptr) (t : ℕ) (p : HeapPool)
    → (obj == null) ≡ false
    → p.elements.task obj ≡ some t
    → taken i (popped obj) p
      ≡ record p { place = at_thread i (working obj) p.place; started = p.started ++ t ∷ [] }
unfolding taken
taken-some i obj t p miss meant =
    ap
      (λ b.
        if b
        then record p { place = at_thread i top p.place }
        else with_task i obj p (task_list (p.elements.task obj)))
      miss
    ∙ ap (λ m. with_task i obj p (task_list m)) meant

module _ (offset n : ℕ) (origin : ThreadPool) (p : HeapPool) where
  -- The worker gets nothing.
  Waited-Shadow :
      (places : ℕ → Place) (i : ℕ) (r : Popped) (e : Elements)
      → ThreadPool.Reach n origin (abstracted p places [])
      → Alike offset p.elements [] p.place places
      → Kept p.elements [] p.place
      → i < n
      → p.place i ≡ taking
      → Waited offset p.elements r e
      → Shadow offset n origin (taken i r (record p { elements = e }))
  unfolding taken take_task take_from
  Waited-Shadow places i r e reach alike kept lt at waited =
      let alike' = other-Alike offset p.elements e [] [] p.place places alike waited.others in
      let kept' : Kept e [] p.place =
        λ o u meant. kept o u (sym (ap (λ f. f o) waited.same_tasks) ∙ meant) in
      let free = ap is_working at in
      elim waited.none_popped [
        | inl blocks ↦
            subst (λ r. Shadow offset n origin (taken i r (record p { elements = e }))) (sym blocks)
              (record {
                places = places;
                queue = [];
                reach = reach;
                owned = waited.owned;
                alike = alike';
                kept = kept';
              })
        | inr expires ↦
            subst (λ r. Shadow offset n origin (taken i r (record p { elements = e })))
              (sym expires)
              (record {
                places = at_thread i top places;
                queue = [];
                reach = ThreadPool.later reach (ThreadPool.takes i lt (alike.idle i free ∙ at));
                owned = waited.owned;
                alike = move-Alike offset e [] p.place places alike' i top refl;
                kept = move-Kept e [] p.place i top free kept';
              })
      ]

  -- It gets the first element.
  Taken-Shadow :
      (places : ℕ → Place) (obj : Ptr) (t : ℕ) (q : List (Ptr × ℕ)) (i : ℕ) (e : Elements)
      → ThreadPool.Reach n origin (abstracted p places ((obj, t) ∷ q))
      → Alike offset p.elements ((obj, t) ∷ q) p.place places
      → Kept p.elements ((obj, t) ∷ q) p.place
      → i < n
      → p.place i ≡ taking
      → Taken offset p.elements obj t q e
      → Shadow offset n origin (taken i (popped obj) (record p { elements = e }))
  unfolding take_task take_from
  Taken-Shadow places obj t q i e reach alike kept lt at pops =
      let free = ap is_working at in
      let live = pops.held.not_null in
      subst (Shadow offset n origin)
        (sym (taken-some i obj t (record p { elements = e }) (ground arith) pops.held.meant))
        (record {
          places = at_thread i (working t) places;
          queue = q;
          reach = ThreadPool.later reach (ThreadPool.takes i lt (alike.idle i free ∙ at));
          owned = pops.owned;
          alike = take-Alike offset p.elements obj t q p.place places i e alike pops;
          kept = take-Kept offset p.elements obj t q p.place places i e alike pops free kept;
        })

  abbrev result : ℕ → Popped × Elements → HeapPool
  result i r = taken i r.0 (record p { elements = r.1 })

  popped-Shadow :
      (places : ℕ → Place) (q : List (Ptr × ℕ)) (i : ℕ) (expired : Bool) (r : Popped × Elements)
      → ThreadPool.Reach n origin (abstracted p places q)
      → Owned offset p.elements q
      → Alike offset p.elements q p.place places
      → Kept p.elements q p.place
      → i < n
      → p.place i ≡ taking
      → pop_element offset i expired p.elements ≡ some r
      → Shadow offset n origin (result i r)
  popped-Shadow places [] i expired r reach owned alike kept lt at eq =
      let (got, e, eq', waited) = pop_element-Waited offset i expired p.elements owned in
      subst (λ z. Shadow offset n origin (result i z)) (some-injective (sym eq' ∙ eq))
        (Waited-Shadow places i got e reach alike kept lt at waited)
  popped-Shadow places ((obj, t) ∷ q) i expired r reach owned alike kept lt at eq =
      let (e, eq', pops) = pop_element-Taken offset i expired p.elements obj t q owned in
      subst (λ z. Shadow offset n origin (result i z)) (some-injective (sym eq' ∙ eq))
        (Taken-Shadow places obj t q i e reach alike kept lt at pops)

  pub takes-Shadow :
      (i : ℕ) (expired : Bool) (r : Popped) (e : Elements)
      → i < n
      → p.place i ≡ taking
      → pop_element offset i expired p.elements ≡ some (r, e)
      → Shadow offset n origin p
      → Shadow offset n origin (taken i r (record p { elements = e }))
  takes-Shadow i expired r e lt at eq s =
      popped-Shadow s.places s.queue i expired (r, e) s.reach s.owned s.alike s.kept lt at eq

  pub wakes-Shadow :
      (xs ys : List ℕ) (i : ℕ)
      → p.elements.base.asleep ≡ xs ++ i ∷ ys
      → Shadow offset n origin p
      → Shadow offset n origin (record p {
        elements = with_base p.elements (record p.elements.base { asleep = xs ++ ys });
      })
  wakes-Shadow xs ys i slept s =
      let l = record p.elements.base { asleep = xs ++ ys } in
      record {
        places = s.places;
        queue = s.queue;
        reach = s.reach;
        owned = record {
          world = World-woken p.elements.hooks p.elements.base _ xs ys i slept s.owned.world;
          sound = s.owned.sound;
        };
        alike =
            other-Alike offset p.elements (with_base p.elements l) s.queue s.queue p.place s.places
              s.alike (λ o u held. Held-base offset p.elements s.queue l o u held);
        kept = s.kept;
      }

-- ===== src/SafeList/ObjectCalls/Refine.antt =====
-- Sequences of calls of an `IntrusiveSafeList` of include/safe_list.hpp, and the sequence of its
-- objects.
use fredlib.Base.{
  ℕ, ◌≡◌, ◌≢◌, refl, sym, ap, ◌∙◌, subst, Bool, true, false, not, ◌||◌, List, [], ◌∷◌, ◌==◌,
  if◌then◌else◌, arith, has, last_or,
}
use mathlib.Core.Path.{ap₂}
use fredlib.SafeList.Heap.{Ptr, null, Heap}
use fredlib.SafeList.Ops.{blocked, popped}
use fredlib.SafeList.Returns
use fredlib.SafeList.Returns.{Returns, returns}
use fredlib.SafeList.Intrusive.{u64_mod, IntrusiveSafeList, get_hook, parent_of}
use fredlib.SafeList.Objects.{hooks, hooks-append, AllBelow, AllBelow-append, parent_of-hook}
use fredlib.SafeList.World.{World, Seg-live}
use fredlib.SafeList.Deque.{Reply, got, spec, wait_reply}
use fredlib.SafeList.Sequence.{exec-Refines}
use fredlib.SafeList.ObjectCalls.{
  ObjectCall, adds_back, adds_front, takes_front, takes_back, exec_object, exec_objects,
  spec_object, spec_objects, ObjectAllowed, AllObjectAllowed, ObjectWorld,
}
use fredlib.SafeList.ObjectCalls.Hooks.{
  hook_call, object_reply, exec_object-exec, has-hooks, last_or-hooks, but_last-hooks, has-last,
  small-has, AllBelow-but_last, Allowed-hooks,
}

-- What the sequence of hooks answers is what the sequence of objects does.
abbrev Answers : ℕ → ObjectCall → List Ptr → Type 0
Answers f c os =
    (object_reply f (spec (hook_call f c) (hooks f os)).0 ≡ (spec_object c os).0)
    × ((spec (hook_call f c) (hooks f os)).1 ≡ hooks f (spec_object c os).1)
    × AllBelow u64_mod (spec_object c os).1

live_object :
    (pool : List Ptr) (h : Heap) (l : IntrusiveSafeList) (os : List Ptr)
    → ObjectWorld pool h l os
    → (o : Ptr) → has o os ≡ true
    → get_hook l.offset o ≢ null
live_object pool h l os w o i =
    (Seg-live h null (hooks l.offset os) null (get_hook l.offset o) w.world.view.chain
      (has-hooks l.offset os o i)).1.live

reply_same :
    (f : ℕ) (b : Bool)
    → object_reply f (if b then got blocked else got (popped null))
      ≡ (if b then got blocked else got (popped null))
unfolding parent_of
reply_same f true = refl
reply_same f false = refl

module _ (pool : List Ptr) (h : Heap) (l : IntrusiveSafeList) where
  pool_hook :
      (os : List Ptr) (obj : Ptr)
      → ObjectWorld pool h l os
      → has obj pool ≡ true
      → (get_hook l.offset obj == null) ≡ false
  pool_hook os obj w i =
      let live = (w.world.alive (get_hook l.offset obj) (has-hooks l.offset pool obj i)).1.live in
      ground arith

  waits-same :
      (timeout : ℕ) (expired : Bool)
      → object_reply l.offset (wait_reply timeout expired) ≡ wait_reply timeout expired
  waits-same timeout expired = reply_same l.offset ((timeout == 0) || not expired)

  answers :
      (os : List Ptr) (c : ObjectCall)
      → ObjectWorld pool h l os
      → ObjectAllowed pool os c
      → Answers l.offset c os
  unfolding spec spec_object
  answers os (adds_back obj) w (i, o) = rw (pool_hook os obj w i) (
    refl,
    sym (hooks-append l.offset os (obj ∷ [])),
    AllBelow-append u64_mod os (obj ∷ []) w.small (small-has _ pool obj w.pool_small i, tt),
  )
  answers os (adds_front obj) w (i, o) =
      rw (pool_hook os obj w i) (refl, refl, (small-has _ pool obj w.pool_small i, w.small))
  answers [] (takes_front thread timeout expired) w may = (waits-same timeout expired, refl, tt)
  answers (x ∷ os) (takes_front thread timeout expired) w may = (
    ap got (parent_of-hook l.offset x w.small.0 (live_object pool h l (x ∷ os) w x (ground arith))),
    refl,
    w.small.1,
  )
  answers [] (takes_back thread timeout expired) w may = (waits-same timeout expired, refl, tt)
  answers (x ∷ os) (takes_back thread timeout expired) w may =
      let last = has-last x os in
      (
        ap (λ z. got (parent_of l.offset (popped z))) (last_or-hooks l.offset x os)
            ∙ ap got (
                parent_of-hook l.offset (last_or x os)
                  (small-has _ (x ∷ os) (last_or x os) w.small last)
                  (live_object pool h l (x ∷ os) w (last_or x os) last)),
        but_last-hooks l.offset x os,
        AllBelow-but_last u64_mod x os w.small,
      )

-- The outcome that the sequence of objects prescribes.
abbrev ObjectRefines :
    (pool : List Ptr) → ObjectCall → List Ptr → Reply × IntrusiveSafeList → Heap → Type 0
ObjectRefines pool c os (r, l) g =
    (r ≡ (spec_object c os).0) × ObjectWorld pool g l (spec_object c os).1

exec_object-Refines :
    (pool : List Ptr) (h : Heap) (l : IntrusiveSafeList) (os : List Ptr) (c : ObjectCall)
    → ObjectWorld pool h l os
    → ObjectAllowed pool os c
    → Returns (ObjectRefines pool c os) (exec_object c l h)
exec_object-Refines pool h l os c w may =
    let (e, same, small) = answers pool h l os c w may in
    subst (Returns (ObjectRefines pool c os)) (sym (exec_object-exec c l h)) (
      Returns.then
        (exec-Refines (hooks l.offset pool) h l.base (hooks l.offset os) (hook_call l.offset c)
          w.world (Allowed-hooks pool h l os c w may))
        λ (r, b) g (e', w'). returns (
          ap (object_reply l.offset) e' ∙ e,
          record {
            world = subst (World (hooks l.offset pool) g b) same w';
            pool_small = w.pool_small;
            small = small;
          },
        ))

-- Every sequence of calls of `IntrusiveSafeList::push_back`, `push_front`, `pop_front` and
-- `pop_back`, made on a list that holds the objects `os` over a pool of objects at addresses of 64
-- bits whose hooks are live and, of those outside the list, clean, where each object that is
-- pushed is one of the pool that is not in the list, runs without a fault, gives the replies that
-- the same calls give on the plain sequence `os` of objects, and leaves a list that holds the
-- sequence of objects that they leave, with the hooks of the others clean.
pub exec_objects-refines :
    (pool : List Ptr) (h : Heap) (l : IntrusiveSafeList) (os : List Ptr) (cs : List ObjectCall)
    → ObjectWorld pool h l os
    → AllObjectAllowed pool os cs
    → Returns
        (λ (rs, l') g. (rs ≡ (spec_objects cs os).0) × ObjectWorld pool g l' (spec_objects cs os).1)
        (exec_objects cs l h)
unfolding exec_objects spec_objects
exec_objects-refines pool h l os [] w may = returns (refl, w)
exec_objects-refines pool h l os (c ∷ cs) w may =
    Returns.then (exec_object-Refines pool h l os c w may.0) λ (r, l') g (e, w').
      Returns.then (exec_objects-refines pool g l' (spec_object c os).1 cs w' may.1)
        λ (rs, l'') k (es, w''). returns (ap₂ {C = List Reply} ◌∷◌ e es, w'')

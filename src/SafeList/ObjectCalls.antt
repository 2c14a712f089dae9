-- ===== src/SafeList/ObjectCalls.antt =====
-- What `IntrusiveSafeList` of include/safe_list.hpp promises: calls on a sequence of objects, and the calls of
-- the class beside it.
pub mod Hooks
pub mod Refine
use fredlib.Base.{
  ℕ, ◌<◌, ◌≡◌, ◌≢◌, refl, sym, ap, ◌∙◌, subst, Bool, true, false, ◌||◌, List, [], ◌∷◌, ◌++◌, ◌==◌,
  ==_iff, if◌then◌else◌, arith, has, last_or, Bool-cases, inl, inr,
}
use mathlib.Core.Bool.{false≢true}
use mathlib.Core.Path.{ap₂}
use fredlib.SafeList.Heap.{Ptr, null, Heap, Action, pure, ◌>>=◌, Outcome, ok, fault, proceed}
use fredlib.SafeList.Ops
use fredlib.SafeList.Ops.{SafeList, Popped, blocked, popped}
use fredlib.SafeList.Returns
use fredlib.SafeList.Returns.{Returns, returns}
use fredlib.SafeList.Intrusive
use fredlib.SafeList.Intrusive.{u64_mod, IntrusiveSafeList, get_hook, get_parent, parent_of}
use fredlib.SafeList.Objects.{
  hooks, hooks-append, AllBelow, AllBelow-append, get_parent-get_hook, parent_of-hook,
}
use fredlib.SafeList.World.{World, Seg-live}
use fredlib.SafeList.Deque.{
  Call, pushes_back, pushes_front, pops_front, pops_back, Reply, done, got, exec, spec, but_last,
  Allowed,
}
use fredlib.SafeList.Sequence.{exec-Refines}

-- A call of a member with an object.
pub data ObjectCall : Type 0 where
  adds_back : Ptr → ObjectCall
  adds_front : Ptr → ObjectCall
  takes_front : (thread timeout : ℕ) (expired : Bool) → ObjectCall
  takes_back : (thread timeout : ℕ) (expired : Bool) → ObjectCall

abbrev with_done : Action (Bool × IntrusiveSafeList) → Action (Reply × IntrusiveSafeList)
with_done m = do (b, l) ← m; pure (done b, l)

abbrev with_got : Action (Popped × IntrusiveSafeList) → Action (Reply × IntrusiveSafeList)
with_got m = do (p, l) ← m; pure (got p, l)

-- The class.
unfoldable pub exec_object : ObjectCall → IntrusiveSafeList → Action (Reply × IntrusiveSafeList)
exec_object (adds_back obj) l = with_done (Intrusive.push_back obj l)
exec_object (adds_front obj) l = with_done (Intrusive.push_front l.base.head obj l)
exec_object (takes_front thread timeout expired) l =
    with_got (Intrusive.pop_front thread timeout expired l)
exec_object (takes_back thread timeout expired) l =
    with_got (Intrusive.pop_back thread timeout expired l)

unfoldable pub exec_objects :
    List ObjectCall → IntrusiveSafeList → Action (List Reply × IntrusiveSafeList)
exec_objects [] l = pure ([], l)
exec_objects (c ∷ cs) l = do
  (r, l') ← exec_object c l
  (rs, l'') ← exec_objects cs l'
  pure (r ∷ rs, l'')

-- The sequence of objects.
unfoldable pub spec_object : ObjectCall → List Ptr → Reply × List Ptr
unfolding spec
spec_object (adds_back obj) os = (done true, os ++ obj ∷ [])
spec_object (adds_front obj) os = (done true, obj ∷ os)
spec_object (takes_front thread timeout expired) os = spec (pops_front thread timeout expired) os
spec_object (takes_back thread timeout expired) os = spec (pops_back thread timeout expired) os

unfoldable pub spec_objects : List ObjectCall → List Ptr → List Reply × List Ptr
spec_objects [] os = ([], os)
spec_objects (c ∷ cs) os =
    let (r, ps) = spec_object c os in let (rs, qs) = spec_objects cs ps in (r ∷ rs, qs)

-- What a caller must respect: an object that is put in is one of the pool that is not in the list.
abbrev pub ObjectAllowed : (pool os : List Ptr) → ObjectCall → Type 0
ObjectAllowed pool os (adds_back obj) = (has obj pool ≡ true) × (has obj os ≡ false)
ObjectAllowed pool os (adds_front obj) = (has obj pool ≡ true) × (has obj os ≡ false)
ObjectAllowed pool os (takes_front thread timeout expired) = Unit
ObjectAllowed pool os (takes_back thread timeout expired) = Unit

abbrev pub AllObjectAllowed : (pool os : List Ptr) → List ObjectCall → Type 0
AllObjectAllowed pool os [] = Unit
AllObjectAllowed pool os (c ∷ cs) =
    ObjectAllowed pool os c × AllObjectAllowed pool (spec_object c os).1 cs

-- The objects of the pool have addresses of 64 bits and live hooks; the list holds `os`, and the hooks of
-- the others are clean.
pub record ObjectWorld (pool : List Ptr) (h : Heap) (l : IntrusiveSafeList) (os : List Ptr)
    : Type 0 where
  pub world : World (hooks l.offset pool) h l.base (hooks l.offset os)
  pub pool_small : AllBelow u64_mod pool
  pub small : AllBelow u64_mod os

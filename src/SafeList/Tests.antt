-- ===== src/SafeList/Tests.antt =====
-- Runs of the list operations of include/safe_list.hpp on concrete hooks: two linked ones at 16 and
-- 32, clean ones at 48 and 64, and a list of no hooks.
use fredlib.Base.{
  if◌then◌else◌, ◌≡◌, refl, true, false, Option, none, some, List, [], ◌∷◌, arith, has, inl, inr,
  ◌==◌,
}
use fredlib.SafeList.Heap.{Ptr, null, hook, clean, Heap, ListHook, ok, fault}
use fredlib.SafeList.Returns.{Returns}
use fredlib.SafeList.Ops
use fredlib.SafeList.Ops.{SafeList, new_list, popped, blocked}
use fredlib.SafeList.Chain.{Seg, At}
use fredlib.SafeList.View.{IsList, new_list-IsList}
use fredlib.SafeList.World.{World}
use fredlib.SafeList.Deque
use fredlib.SafeList.Deque.{
  Call, pushes_back, pushes_front, pops_front, pops_back, erases, inserts, exec_all, spec_all,
}
use fredlib.SafeList.Push.{}
use fredlib.SafeList.Sequence.{exec_all-refines}
use fredlib.SafeList.Race.{push_front-race, erase-stranger}
use fredlib.SafeList.Intrusive
use fredlib.SafeList.Intrusive.{IntrusiveSafeList, deref, copy, assign}
use fredlib.SafeList.Intrusive.{visit_objects}
use fredlib.SafeList.ObjectWalk.{visit_objects-begin}
use fredlib.SafeList.Shared
use fredlib.SafeList.ObjectCalls.{
  ObjectCall, adds_back, adds_front, takes_front, takes_back, exec_objects, spec_object,
  spec_objects, ObjectWorld,
}
use fredlib.SafeList.ObjectCalls.Refine.{exec_objects-refines}
use fredlib.SafeList.Shared.Sleepers.{nonempty-awake}
use fredlib.SafeList.Objects.{HoldsObjects, deref-assign}

abbrev heap : Heap
heap a =
    if a == 16
    then some (hook null 32)
    else (if a == 32
        then some (hook 16 null)
        else (if a == 48 then some clean else (if a == 64 then some clean else none)))

abbrev two : SafeList
two = record { head = 16; tail = 32; size = 2; asleep = [] }

abbrev pair_of : List Ptr
pair_of = 16 ∷ 32 ∷ []

two-IsList : IsList heap two pair_of
two-IsList = record {
  chain = (omega arith, refl, (omega arith, refl, tt));
  distinct = (refl, (refl, tt));
  head = refl;
  tail = refl;
  size = refl;
  awake = λ _. refl;
}

at_48 : At heap 48 clean
at_48 = record { live = omega arith; holds = refl }

at_64 : At heap 64 clean
at_64 = record { live = omega arith; holds = refl }

-- A world of four clean hooks and an empty list.
abbrev pool : List Ptr
pool = 48 ∷ 64 ∷ []

abbrev fresh_heap : Heap
fresh_heap a = if a == 48 then some clean else (if a == 64 then some clean else none)

abbrev hook_of : Option ListHook → ListHook
hook_of none = clean
hook_of (some n) = n

fresh-clean : (p : Ptr) (n : ListHook) → fresh_heap p ≡ some n → n ≡ clean
fresh-clean p n e = ground arith

fresh-alive : (p : Ptr) → has p pool ≡ true → (n : ListHook) × At fresh_heap p n
fresh-alive p i = (clean, record { live = ground arith; holds = ground arith })

start : World pool fresh_heap new_list []
start = record {
  view = new_list-IsList fresh_heap;
  rest = λ p n e out. fresh-clean p n e;
  alive = fresh-alive;
}

abbrev calls : List Call
calls =
    pushes_back 48
    ∷ pushes_front 64
    ∷ erases 48
    ∷ inserts 64 48
    ∷ pops_back 1 0 false
    ∷ pops_front 1 5 true
    ∷ pops_front 1 5 false
    ∷ []

exec_all-refines_example :
    Returns
      (λ (rs, l') g. (rs ≡ (spec_all calls []).0) × World pool g l' (spec_all calls []).1)
      (exec_all calls new_list fresh_heap)
unfolding spec_all Deque.spec
exec_all-refines_example = exec_all-refines pool fresh_heap new_list [] calls start (
  inr (refl, refl),
  (inr (refl, refl), (inr refl, ((inr (refl, refl), inr (inl refl)), (tt, (tt, (tt, tt)))))),
)

push_front-race_example :
    Returns
      (λ (done, l') g.
        (done ≡ true)
        × (g 64 ≡ some (hook null 48))
        × (g 48 ≡ some (hook 64 null))
        × Seg g null pair_of null
        × ((zs : List Ptr) → ¬ IsList g l' zs))
      (Ops.push_front 48 64 two heap)
push_front-race_example =
    push_front-race heap two 48 64 clean at_64 at_48 16 (32 ∷ []) two-IsList refl refl

erase-stranger_example :
    Returns
      (λ (done, l') g.
        (done ≡ true) × Seg g null pair_of null × ((zs : List Ptr) → ¬ IsList g l' zs))
      (Ops.erase 48 two heap)
erase-stranger_example = erase-stranger heap two pair_of 48 two-IsList at_48 refl

-- The same hooks in objects whose hook stands 8 bytes behind their start.
abbrev objects : IntrusiveSafeList
objects = record { base = two; offset = 8 }

objects-HoldsObjects : HoldsObjects heap objects (8 ∷ 24 ∷ [])
unfolding Intrusive.get_hook
objects-HoldsObjects = record { linked = two-IsList; small = (omega arith, (omega arith, tt)) }

deref-assign_example :
    (deref (Intrusive.begin 4 objects) heap ≡ ok 8 heap)
    × (deref (copy (Intrusive.begin 4 objects)) heap ≡ ok 8 heap)
    × (deref (assign Intrusive.end (Intrusive.begin 4 objects)) heap ≡ fault)
deref-assign_example = deref-assign heap objects 4 8 (24 ∷ []) objects-HoldsObjects

visit_objects-begin_example :
    visit_objects 3 (Intrusive.begin 4 objects) heap ≡ ok (some (8 ∷ 24 ∷ [])) heap
visit_objects-begin_example =
    visit_objects-begin heap objects (8 ∷ 24 ∷ []) 4 3 objects-HoldsObjects (omega arith)
      (omega arith)

-- A thread sleeps on an empty list until a hook is put in.
abbrev empty_one : Shared.Shared
empty_one = record { list = new_list; heap = heap }

abbrev sleeping : Shared.Shared
sleeping = record { list = record new_list { asleep = 7 ∷ [] }; heap = heap }

abbrev filled_one : Shared.Shared
filled_one = record { list = record { head = 48; tail = 48; size = 1; asleep = [] }; heap = heap }

filled-Reach : Shared.Reach empty_one filled_one
unfolding Ops.pop_front Ops.push_back
filled-Reach =
    Shared.later
      (Shared.later {t = empty_one} {u = sleeping} Shared.here
        (Shared.pops_front 7 0 false blocked refl))
      (Shared.pushes_back 48 true refl)

nonempty-awake_example : filled_one.list.asleep ≡ []
unfolding Ops.is_empty
nonempty-awake_example = nonempty-awake filled-Reach refl

-- Objects at 40 and 56, with their hooks 8 bytes behind, in no list yet.
abbrev object_pool : List Ptr
object_pool = 40 ∷ 56 ∷ []

abbrev object_calls : List ObjectCall
object_calls =
    adds_back 40
    ∷ adds_front 56
    ∷ takes_back 1 0 false
    ∷ takes_front 1 0 false
    ∷ takes_front 1 0 false
    ∷ []

no_objects : ObjectWorld object_pool fresh_heap (record { base = new_list; offset = 8 }) []
unfolding Intrusive.get_hook
no_objects = record { world = start; pool_small = (omega arith, (omega arith, tt)); small = tt }

exec_objects-refines_example :
    Returns
      (λ (rs, l) g.
        (rs ≡ (spec_objects object_calls []).0)
        × ObjectWorld object_pool g l (spec_objects object_calls []).1)
      (exec_objects object_calls (record { base = new_list; offset = 8 }) fresh_heap)
unfolding spec_objects spec_object Deque.spec Deque.but_last
exec_objects-refines_example =
    exec_objects-refines object_pool fresh_heap (record { base = new_list; offset = 8 }) []
      object_calls no_objects ((refl, refl), ((refl, refl), (tt, (tt, (tt, tt)))))

-- ===== src/SafeList/Objects.antt =====
-- The objects of an `IntrusiveSafeList` of include/safe_list.hpp.
use fredlib.Base.{
  ℕ, ◌<◌, ◌≡◌, refl, ◌≢◌, ap, Bool, true, false, some, List, [], ◌∷◌, ◌++◌, arith, ◌==◌, has,
  first_or,
}
use mathlib.Core.List.{append-nil}
use mathlib.Core.Path.{◌∙◌, subst, sym}
use fredlib.SafeList.Heap.{Ptr, null, clean, hook, ListHook, Heap, ok, fault}
use fredlib.SafeList.Ops.{SafeList, Popped, popped}
use fredlib.SafeList.Returns
use fredlib.SafeList.Returns.{Returns, returns}
use fredlib.SafeList.Chain.{At, load-ok, At-first, Seg-split}
use fredlib.SafeList.View.{IsList}
use fredlib.SafeList.Push
use fredlib.SafeList.Insert
use fredlib.SafeList.Remove
use fredlib.SafeList.Iterator
use fredlib.SafeList.Intrusive.{
  u64_mod, IntrusiveSafeList, get_hook, get_parent, push_back, push_front, parent_of, pop_front,
  pop_back, begin, end, assign, copy, deref, object_at,
}

-- The hook of an object leads back to the object.
pub get_parent-get_hook :
    (offset : ℕ) (obj : Ptr) → obj < u64_mod → get_parent offset (get_hook offset obj) ≡ obj
unfolding get_parent get_hook
get_parent-get_hook offset obj small = omega arith

-- The hooks of a sequence of objects.
abbrev pub hooks : (offset : ℕ) → List Ptr → List Ptr
hooks f [] = []
hooks f (o ∷ os) = get_hook f o ∷ hooks f os

abbrev pub AllBelow : ℕ → List Ptr → Type 0
AllBelow b [] = Unit
AllBelow b (o ∷ os) = (o < b) × AllBelow b os

-- The list holds the objects `os`, in this order; each is an address of 64 bits.
pub record HoldsObjects (h : Heap) (l : IntrusiveSafeList) (os : List Ptr) : Type 0 where
  pub linked : IsList h l.base (hooks l.offset os)
  pub small : AllBelow u64_mod os

pub hooks-append : (f : ℕ) (os ps : List Ptr) → hooks f (os ++ ps) ≡ hooks f os ++ hooks f ps
hooks-append f [] ps = refl
hooks-append f (o ∷ os) ps = ap {B = List Ptr} (λ r. get_hook f o ∷ r) (hooks-append f os ps)

pub AllBelow-append :
    (b : ℕ) (os ps : List Ptr) → AllBelow b os → AllBelow b ps → AllBelow b (os ++ ps)
AllBelow-append b [] ps s t = t
AllBelow-append b (o ∷ os) ps s t = (s.0, AllBelow-append b os ps s.1 t)

AllBelow-split : (b : ℕ) (os ps : List Ptr) → AllBelow b (os ++ ps) → AllBelow b os × AllBelow b ps
AllBelow-split b [] ps s = (tt, s)
AllBelow-split b (o ∷ os) ps s = let (x, y) = AllBelow-split b os ps s.1 in ((s.0, x), y)

-- `hook ? getParent(hook) : nullptr` at the hook of an object.
pub parent_of-hook :
    (f : ℕ) (obj : Ptr)
    → obj < u64_mod
    → get_hook f obj ≢ null
    → parent_of f (popped (get_hook f obj)) ≡ popped obj
unfolding parent_of
parent_of-hook f obj small live =
    let set : (get_hook f obj == null) ≡ false = ground arith in
    rw (set, get_parent-get_hook f obj small)

-- The outcome of a push: success, and the objects `os`.
abbrev pub Pushed : List Ptr → Bool × IntrusiveSafeList → Heap → Type 0
Pushed os (done, l) g = (done ≡ true) × HoldsObjects g l os

module _ (h : Heap) (l : IntrusiveSafeList) (os : List Ptr) (holds : HoldsObjects h l os) where
  module _ (obj : Ptr) (small : obj < u64_mod) (at : At h (get_hook l.offset obj) clean)
      (new : has (get_hook l.offset obj) (hooks l.offset os) ≡ false) where
    -- `IntrusiveSafeList::push_back` of an object at an address of 64 bits, whose hook is live,
    -- clean and not in the list, on a list that holds the objects `os`, succeeds, and the list
    -- then holds the objects `os ++ obj ∷ []`.
    pub push_back-obj : Returns (Pushed (os ++ obj ∷ [])) (push_back obj l h)
    unfolding push_back
    push_back-obj =
        Returns.then
          (Push.push_back-snoc h l.base (get_hook l.offset obj) clean at (hooks l.offset os)
            holds.linked new (λ _. refl))
          λ _ g (e, view, same). returns (
            e,
            record {
              linked = rw (hooks-append l.offset os (obj ∷ [])) view;
              small = AllBelow-append u64_mod os (obj ∷ []) holds.small (small, tt);
            },
          )

    pub push_front-obj : Returns (Pushed (obj ∷ os)) (push_front l.base.head obj l h)
    unfolding push_front
    push_front-obj =
        Returns.then
          (Insert.push_front-cons h l.base (get_hook l.offset obj) clean at (hooks l.offset os)
            holds.linked new (λ _. refl))
          λ _ g (e, view, same). returns (e, record { linked = view; small = (small, holds.small) })

-- The outcome of a pop: the object, and the objects that are left.
abbrev pub PoppedObject : Ptr → List Ptr → Popped × IntrusiveSafeList → Heap → Type 0
PoppedObject obj os (r, l) g = (r ≡ popped obj) × HoldsObjects g l os

module _ (h : Heap) (l : IntrusiveSafeList) (thread timeout : ℕ) (expired : Bool) where
  -- `IntrusiveSafeList::pop_front` on a list that holds the objects `obj ∷ os` returns `obj`, not
  -- its hook, without waiting, and the list then holds the objects `os`.
  pub pop_front-obj :
      (obj : Ptr) (os : List Ptr)
      → HoldsObjects h l (obj ∷ os)
      → Returns (PoppedObject obj os) (pop_front thread timeout expired l h)
  unfolding pop_front
  pop_front-obj obj os holds =
      let live =
        (At-first h null (get_hook l.offset obj) (hooks l.offset os) null
          holds.linked.chain).live in
      Returns.then
        (Remove.pop_front-first h l.base thread timeout expired (get_hook l.offset obj)
          (hooks l.offset os) holds.linked)
        λ _ g (e, s). returns (
          ap (parent_of l.offset) e ∙ parent_of-hook l.offset obj holds.small.0 live,
          record { linked = s.view; small = holds.small.1 },
        )

  pub pop_back-obj :
      (os : List Ptr) (obj : Ptr)
      → HoldsObjects h l (os ++ obj ∷ [])
      → Returns (PoppedObject obj os) (pop_back thread timeout expired l h)
  unfolding pop_back
  pop_back-obj os obj holds =
      let is = subst (IsList h l.base) (hooks-append l.offset os (obj ∷ [])) holds.linked in
      let (below, small) = AllBelow-split u64_mod os (obj ∷ []) holds.small in
      let live =
        (At-first h _ (get_hook l.offset obj) [] null
          (Seg-split h null (hooks l.offset os) (get_hook l.offset obj ∷ []) null
            is.chain).1).live in
      Returns.then
        (Remove.pop_back-last h l.base thread timeout expired (hooks l.offset os)
          (get_hook l.offset obj) is)
        λ _ g (e, s). returns (
          ap (parent_of l.offset) e ∙ parent_of-hook l.offset obj small.0 live,
          record { linked = rw append-nil at s.view; small = below },
        )

-- `*` at a live hook does not fault.
pub object_at-At :
    (h : Heap) (l : IntrusiveSafeList) (it : Iterator.Iterator) {n : ListHook}
    → At h it.current n
    → object_at (some l) it h ≡ ok (get_parent l.offset it.current) h
unfolding object_at Iterator.deref
object_at-At h l it at = rw (load-ok at) refl

begin-current : (this : Ptr) (l : SafeList) → (Iterator.begin this l).current ≡ l.head
unfolding Iterator.begin
begin-current this l = ground arith

-- On an `IntrusiveSafeList` that holds the objects `obj ∷ os`, `*begin()` is `obj`, and so is `*`
-- of a copy made by the copy constructor; `*` of an iterator without a list, such as `end()`, to
-- which `begin()` has been assigned, is a fault.
pub deref-assign :
    (h : Heap) (l : IntrusiveSafeList) (this obj : Ptr) (os : List Ptr)
    → HoldsObjects h l (obj ∷ os)
    → (deref (begin this l) h ≡ ok obj h)
      × (deref (copy (begin this l)) h ≡ ok obj h)
      × (deref (assign end (begin this l)) h ≡ fault)
unfolding deref object_at begin copy assign
deref-assign h l this obj os holds =
    let at = At-first h null (get_hook l.offset obj) (hooks l.offset os) null holds.linked.chain in
    let it = Iterator.begin this l.base in
    let current = begin-current this l.base ∙ holds.linked.head in
    let found =
      object_at-At h l it
        (subst (λ p. At h p (hook null (first_or null (hooks l.offset os)))) (sym current) at)
      ∙ ap (λ p. ok p h)
          (ap (get_parent l.offset) current ∙ get_parent-get_hook l.offset obj holds.small.0) in
    (found, found, refl)

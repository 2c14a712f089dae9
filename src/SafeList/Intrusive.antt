-- ===== src/SafeList/Intrusive.antt =====
-- include/safe_list.hpp, `IntrusiveSafeList` and its iterator: a `SafeList` of the hooks that stand
-- inside objects, `mOffset` bytes behind the start of each.
use fredlib.Base.{
  List, [], ◌∷◌, zero, suc, Option, none, some, if◌then◌else◌, not, ℕ, ◌+◌, ◌-◌, ◌%◌, ◌^◌, Bool,
  Option, none, some, ◌==◌, if◌then◌else◌,
}
use fredlib.SafeList.Heap.{Ptr, null, fault, Action, pure, ◌>>=◌}
use fredlib.SafeList.Ops
use fredlib.SafeList.Ops.{SafeList, Popped, blocked, popped}
use fredlib.SafeList.Iterator
use fredlib.SafeList.Iterator.{Iterator, increment, decrement}

abbrev pub u64_mod : ℕ
u64_mod = 2 ^ 64

-- `offset` is `mOffset`, which the constructor takes from the pointer to member.
pub record IntrusiveSafeList : Type 0 where
  pub base : SafeList
  pub offset : ℕ

-- The constructor: the address of the member in an object at address 0.
abbrev pub new_intrusive : (member : ℕ) → IntrusiveSafeList
new_intrusive member = record { base = Ops.new_list; offset = member }

-- `getHook`: the member's address; `getParent`: pointer arithmetic on 64-bit integers.
unfoldable pub get_hook : (offset : ℕ) → Ptr → Ptr
get_hook offset obj = (obj + offset) % u64_mod

unfoldable pub get_parent : (offset : ℕ) → Ptr → Ptr
get_parent offset p = (p + u64_mod - offset % u64_mod) % u64_mod

abbrev with_base : IntrusiveSafeList → SafeList → IntrusiveSafeList
with_base l b = record l { base = b }

unfoldable pub push_back : Ptr → IntrusiveSafeList → Action (Bool × IntrusiveSafeList)
unfolding get_hook
push_back obj l = do
  (done, b) ← Ops.push_back (get_hook l.offset obj) l.base
  pure (done, with_base l b)

unfoldable pub push_front :
    (front : Ptr) → Ptr → IntrusiveSafeList → Action (Bool × IntrusiveSafeList)
unfolding get_hook
push_front front obj l = do
  (done, b) ← Ops.push_front front (get_hook l.offset obj) l.base
  pure (done, with_base l b)

-- `hook ? getParent(hook) : nullptr`
unfoldable pub parent_of : (offset : ℕ) → Popped → Popped
unfolding get_parent
parent_of offset blocked = blocked
parent_of offset (popped p) = popped (if p == null then null else get_parent offset p)

unfoldable pub pop_front :
    (thread timeout : ℕ) (expired : Bool) → IntrusiveSafeList → Action (Popped × IntrusiveSafeList)
unfolding parent_of
pop_front thread timeout expired l = do
  (r, b) ← Ops.pop_front thread timeout expired l.base
  pure (parent_of l.offset r, with_base l b)

unfoldable pub pop_back :
    (thread timeout : ℕ) (expired : Bool) → IntrusiveSafeList → Action (Popped × IntrusiveSafeList)
unfolding parent_of
pop_back thread timeout expired l = do
  (r, b) ← Ops.pop_back thread timeout expired l.base
  pure (parent_of l.offset r, with_base l b)

-- `empty()`
unfoldable pub empty : IntrusiveSafeList → Bool
empty l = Ops.empty l.base

-- The iterator: one over the hooks, and the address of the list, through which `getParent` is called.
pub record IntrusiveIterator : Type 0 where
  pub base_iter : Iterator
  pub parent : Option IntrusiveSafeList  -- `mParent`, with what it points to

unfoldable pub begin : (this : Ptr) → IntrusiveSafeList → IntrusiveIterator
begin this l = record { base_iter = Iterator.begin this l.base; parent = some l }

abbrev pub end : IntrusiveIterator
end = record { base_iter = Iterator.end; parent = none }

-- `operator=` copies the hooks' iterator only; the copy constructor copies both members.
unfoldable pub assign : IntrusiveIterator → IntrusiveIterator → IntrusiveIterator
assign lhs rhs = record lhs { base_iter = rhs.base_iter }

unfoldable pub copy : IntrusiveIterator → IntrusiveIterator
copy it = record { base_iter = it.base_iter; parent = it.parent }

unfoldable pub next : IntrusiveIterator → Action IntrusiveIterator
next it = do b ← increment it.base_iter; pure (record it { base_iter = b })

unfoldable pub prior : IntrusiveIterator → Action IntrusiveIterator
prior it = do b ← decrement it.base_iter; pure (record it { base_iter = b })

-- The postfix forms: the old position, and the new one.
unfoldable pub post_next : IntrusiveIterator → Action (IntrusiveIterator × IntrusiveIterator)
unfolding next
post_next it = do it' ← next it; pure (copy it, it')

unfoldable pub post_prior : IntrusiveIterator → Action (IntrusiveIterator × IntrusiveIterator)
unfolding prior
post_prior it = do it' ← prior it; pure (copy it, it')

unfoldable pub same_iter : IntrusiveIterator → IntrusiveIterator → Bool
same_iter a b = Iterator.same_iter a.base_iter b.base_iter

unfoldable pub differ_iter : IntrusiveIterator → IntrusiveIterator → Bool
unfolding same_iter
differ_iter a b = not (same_iter a b)

unfoldable pub lt_iter : IntrusiveIterator → IntrusiveIterator → Bool
lt_iter a b = Iterator.lt_iter a.base_iter b.base_iter

unfoldable pub gt_iter : IntrusiveIterator → IntrusiveIterator → Bool
unfolding lt_iter
gt_iter a b = lt_iter b a

unfoldable pub le_iter : IntrusiveIterator → IntrusiveIterator → Bool
unfolding gt_iter
le_iter a b = not (gt_iter a b)

unfoldable pub ge_iter : IntrusiveIterator → IntrusiveIterator → Bool
unfolding lt_iter
ge_iter a b = not (lt_iter a b)

unfoldable pub is_valid : IntrusiveIterator → Bool
is_valid it = Iterator.is_valid it.base_iter

-- `mParent->getParent(&*_base_iter)`: a fault without a list, and at a position without a hook.
unfoldable pub object_at : Option IntrusiveSafeList → Iterator → Action Ptr
unfolding get_parent
object_at none base_iter = λ h. fault
object_at (some l) base_iter = do
  n ← Iterator.deref base_iter
  pure (get_parent l.offset base_iter.current)

-- `operator*`: the object.
unfoldable pub deref : IntrusiveIterator → Action Ptr
unfolding object_at
deref it = object_at it.parent it.base_iter

-- `for (auto& v : list)`, and `std::all_of` with a predicate that holds: the objects from `it` on.
-- `none` stands for fuel that has run out.
unfoldable pub visit_objects : ℕ → IntrusiveIterator → Action (Option (List Ptr))
unfolding differ_iter next deref
visit_objects zero it = pure none
visit_objects (suc k) it =
    let rest : Action (Option (List Ptr)) = (do
      p ← deref it
      it' ← next it
      r ← visit_objects k it'
      pure (elim r [ none ↦ none | some ps ↦ some (p ∷ ps) ])) in
    if differ_iter it end then rest else pure (some [])

-- `operator->`: the object's address, through the list.
unfoldable pub arrow : IntrusiveIterator → Action Ptr
unfolding object_at
arrow it = object_at it.parent it.base_iter

-- `Iterator(parent)`, where the list, if there is one, is at `this`.
unfoldable pub new_iterator : (this : Ptr) → Option IntrusiveSafeList → IntrusiveIterator
unfolding begin
new_iterator this none = end
new_iterator this (some l) = begin this l

-- ===== src/Examples/ListDemo.antt =====
-- examples/list.cpp. The local objects stand at addresses that the compiler chooses, and so does a
-- hook inside of its object. Of what is printed the numbers are kept.
pub mod Output
pub mod Objects
use fredlib.Base.{
  ℕ, zero, suc, ◌+◌, ◌++◌, ◌≡◌, Bool, true, false, Option, none, some, List, [], ◌∷◌, if◌then◌else◌,
  ◌==◌, map,
}
use fredlib.SafeList.Heap.{Ptr, null, Heap, fault, Action, pure, ◌>>=◌}
use fredlib.SafeList.Ops
use fredlib.SafeList.Ops.{SafeList, Popped, blocked, popped, new_list}
use fredlib.SafeList.Iterator
use fredlib.SafeList.Iterator.{visit, increment}
use fredlib.SafeList.Intrusive
use fredlib.SafeList.Intrusive.{
  IntrusiveSafeList, IntrusiveIterator, visit_objects, new_intrusive, get_hook, get_parent,
  differ_iter, next, deref,
}

-- The addresses of the objects, and `member`, the place of `hook` in a `MyData`.
pub record Locals : Type 0 where
  pub list : Ptr
  pub data1 : Ptr
  pub data2 : Ptr
  pub data3 : Ptr
  pub derived : Ptr
  pub data7 : Ptr
  pub member : ℕ

-- The member `data` of each object, as it is initialised or assigned.
unfoldable pub int_of : Locals → Ptr → Option ℕ
int_of f p =
    if p == f.data1
    then some 1
    else (if p == f.data2
        then some 2
        else (if p == f.data3
            then some 3
            else (if p == f.derived then some 3 else (if p == f.data7 then some 7 else none))))

pub data Line : Type 0 where
  list_size : ℕ → Line
  data_of : ℕ → Line

-- `p->data`: a fault where there is no object.
unfoldable pub read_int : (Ptr → Option ℕ) → Ptr → Action ℕ
read_int ints p = elim (ints p) [ none ↦ (λ h. fault) | some n ↦ pure n ]

-- The pointer that a pop returns to the only thread. No other thread could wake it, so that a pop
-- that waits counts as a fault.
unfoldable pub got : Popped → Action Ptr
got blocked = λ h. fault
got (popped p) = pure p

-- `pop_front()`, without a timeout, by the main thread.
unfoldable pub pop : SafeList → Action (Ptr × SafeList)
unfolding got
pop l = do (r, l') ← Ops.pop_front 0 0 false l; p ← got r; pure (p, l')

unfoldable pub push : Ptr → SafeList → Action SafeList
push p l = do (b, l') ← Ops.push_back p l; pure l'

-- The body of a `for` loop over hooks that are cast to their objects.
unfoldable pub print_ints : (Ptr → Option ℕ) → List Ptr → Action (List Line)
unfolding read_int
print_ints ints [] = pure []
print_ints ints (p ∷ ps) = do n ← read_int ints p; ls ← print_ints ints ps; pure (data_of n ∷ ls)

unfoldable pub all_visited : Option (List Ptr) → Action (List Ptr)
all_visited none = λ h. fault
all_visited (some ps) = pure ps

unfoldable pub safe_list_demo : Locals → Action (List Line)
unfolding push pop print_ints read_int all_visited
safe_list_demo f = do
  l1 ← push (get_hook f.member f.data1) new_list
  l2 ← push (get_hook f.member f.data2) l1
  l3 ← push (get_hook f.member f.data3) l2
  (p_hook1, l4) ← pop l3
  (p2, l5) ← pop l4
  (p3, l6) ← pop l5
  n1 ← read_int (int_of f) (get_parent f.member p_hook1)
  l7 ← push f.derived l6
  (p_data, l8) ← pop l7
  n3 ← read_int (int_of f) p_data
  l9 ← push f.data7 l8
  (p_data7, l10) ← pop l9
  n7 ← read_int (int_of f) p_data7
  l11 ← push f.data7 l10
  visited ← visit (Ops.size l11 + 1) increment (Iterator.begin f.list l11)
  hooks ← all_visited visited
  ls ← print_ints (int_of f) hooks
  pure (
      list_size (Ops.size l3) ∷ list_size (Ops.size l6) ∷ data_of n1 ∷ data_of n3 ∷ data_of n7 ∷ ls)

unfoldable pub pop_object : IntrusiveSafeList → Action (Ptr × IntrusiveSafeList)
unfolding got
pop_object l = do (r, l') ← Intrusive.pop_front 0 0 false l; p ← got r; pure (p, l')

unfoldable pub push_object : Ptr → IntrusiveSafeList → Action IntrusiveSafeList
push_object obj l = do (b, l') ← Intrusive.push_back obj l; pure l'

-- The list stands at `this`, and `data` at `obj`.
unfoldable pub intrusive_safe_list_demo : (this obj : Ptr) (member : ℕ) → Action (List Line)
unfolding push_object pop_object visit_objects read_int all_visited print_ints
intrusive_safe_list_demo this obj member = do
  let ints : Ptr → Option ℕ = λ p. if p == obj then some 5 else none
  l1 ← push_object obj (new_intrusive member)
  (pdata, l2) ← pop_object l1
  n ← read_int ints pdata
  l3 ← push_object obj l2
  visited ← visit_objects (Ops.size l3.base + 1) (Intrusive.begin this l3)
  objects ← all_visited visited
  ls ← print_ints ints objects
  again ← visit_objects (Ops.size l3.base + 1) (Intrusive.begin this l3)
  objects' ← all_visited again
  ls' ← print_ints ints objects'
  pure (data_of n ∷ (ls ++ ls'))

-- `main`
unfoldable pub list_main : Locals → (this obj : Ptr) (member : ℕ) → Action (List Line)
unfolding safe_list_demo intrusive_safe_list_demo
list_main f this obj member = do
  ls ← safe_list_demo f
  ls' ← intrusive_safe_list_demo this obj member
  pure (ls ++ ls')

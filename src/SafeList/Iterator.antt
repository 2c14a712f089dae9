-- ===== src/SafeList/Iterator.antt =====
-- include/safe_list.hpp, `SafeList::Iterator`: a position in a list. `mParent` is the address of the
-- list object, and null in an iterator that is past either end.
pub mod Walk
use fredlib.Base.{
  ℕ, zero, suc, ◌<◌, ◌≡◌, refl, ◌≢◌, ap, Bool, true, false, not, ◌&&◌, Option, none, some, List, [],
  ◌∷◌, ◌++◌, arith, ◌==◌, first_or, last_or, length, if◌then◌else◌, ltb, last_or-append_cons,
}
use mathlib.Core.Path.{◌∙◌, subst}
use mathlib.Core.List.{reverse, reverse-append}
use fredlib.SafeList.Heap.{Ptr, null, ListHook, hook, Heap, ok, fault, Action, pure, ◌>>=◌, load}
use fredlib.SafeList.Ops.{SafeList}
use fredlib.SafeList.Chain.{Seg, At, not_null, load-ok, At-first, Seg-split}
use fredlib.SafeList.View.{IsList, is_nil, snoc_view}

pub record Iterator : Type 0 where
  pub current : Ptr
  pub parent : Ptr

-- `Iterator(nullptr)`, which `end()` returns.
abbrev pub end : Iterator
end = record { current = null; parent = null }

-- `Iterator(parent)`, where `l` is the list object at `parent`, if that is not null.
unfoldable pub new_iterator : (parent : Ptr) → SafeList → Iterator
new_iterator parent l =
    let current = if parent == null then null else l.head in
    record { current = current; parent = if current == null then null else parent }

-- The copy constructor and `operator=`: both members are copied.
unfoldable pub copy : Iterator → Iterator
copy it = record { current = it.current; parent = it.parent }

unfoldable pub assign : (rhs : Iterator) → Iterator → Iterator
assign rhs it = record it { current = rhs.current; parent = rhs.parent }

-- `operator*` and `operator->`: the hook at the position, and its address.
unfoldable pub deref : Iterator → Action ListHook
deref it = load it.current

unfoldable pub arrow : Iterator → Ptr
arrow it = it.current

-- `begin()`, that is `Iterator(this)` for the list object at `this`.
unfoldable pub begin : (this : Ptr) → SafeList → Iterator
begin this l = if l.head == null then end else record { current = l.head; parent = this }

-- `operator++` and `operator--` in prefix form. The lock is taken through `mParent`, which faults if
-- it is null.
unfoldable pub increment : Iterator → Action Iterator
increment it = if it.parent == null then (λ h. fault) else do
  n ← load it.current
  pure (record { current = n.next; parent = if n.next == null then null else it.parent })

unfoldable pub decrement : Iterator → Action Iterator
decrement it = if it.parent == null then (λ h. fault) else do
  n ← load it.current
  pure (record { current = n.prev; parent = if n.prev == null then null else it.parent })

-- The postfix forms: the old position, and the new one.
unfoldable pub post_increment : Iterator → Action (Iterator × Iterator)
unfolding increment
post_increment it = do it' ← increment it; pure (it, it')

unfoldable pub post_decrement : Iterator → Action (Iterator × Iterator)
unfolding decrement
post_decrement it = do it' ← decrement it; pure (it, it')

-- `operator==`, `operator!=`, `is_valid`
unfoldable pub same_iter : Iterator → Iterator → Bool
same_iter a b = (a.current == b.current) && (a.parent == b.parent)

unfoldable pub differ_iter : Iterator → Iterator → Bool
unfolding same_iter
differ_iter a b = not (same_iter a b)

unfoldable pub is_valid : Iterator → Bool
is_valid it = not (it.parent == null)

-- `operator<` compares addresses; the other orders go back to it.
unfoldable pub lt_iter : Iterator → Iterator → Bool
lt_iter a b = ltb a.current b.current

unfoldable pub gt_iter : Iterator → Iterator → Bool
gt_iter a b = lt_iter b a

unfoldable pub le_iter : Iterator → Iterator → Bool
le_iter a b = not (gt_iter a b)

unfoldable pub ge_iter : Iterator → Iterator → Bool
ge_iter a b = not (lt_iter a b)

-- `for (it = from; it != end(); step(it)) visit(*it)`: the hooks that are visited. `none` stands for
-- fuel that has run out.
unfoldable pub visit : ℕ → (Iterator → Action Iterator) → Iterator → Action (Option (List Ptr))
unfolding differ_iter
visit zero step it = pure none
visit (suc k) step it =
    let rest : Action (Option (List Ptr)) = (do
      it' ← step it
      r ← visit k step it'
      pure (elim r [ none ↦ none | some ps ↦ some (it.current ∷ ps) ])) in
    if differ_iter it end then rest else pure (some [])

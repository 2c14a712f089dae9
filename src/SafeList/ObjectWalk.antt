-- ===== src/SafeList/ObjectWalk.antt =====
-- Walks over the objects of an `IntrusiveSafeList` of include/safe_list.hpp.
use fredlib.Base.{
  ℕ, zero, suc, ◌<◌, ◌≡◌, ◌≢◌, refl, ap, ◌∙◌, true, false, some, List, [], ◌∷◌, arith, length,
  first_or, ◌==◌,
}
use fredlib.SafeList.Heap.{Ptr, null, Heap, ListHook, hook, ok}
use fredlib.SafeList.Chain.{Seg, At, not_null, At-first}
use fredlib.SafeList.Iterator
use fredlib.SafeList.Iterator.Walk.{at_hook, begin-at_hook, increment-At}
use fredlib.SafeList.Intrusive.{
  u64_mod, IntrusiveSafeList, IntrusiveIterator, get_hook, begin, end, next, deref, differ_iter,
  same_iter, visit_objects,
}
use fredlib.SafeList.Objects.{object_at-At, get_parent-get_hook, hooks, AllBelow, HoldsObjects}

abbrev at_object : IntrusiveSafeList → (this : Ptr) → Ptr → IntrusiveIterator
at_object l this p = record { base_iter = at_hook this p; parent = some l }

length-hooks : (f : ℕ) (os : List Ptr) → length (hooks f os) ≡ length os
length-hooks f [] = refl
length-hooks f (o ∷ os) = ap suc (length-hooks f os)

-- A turn of the loop, and its end.
visit_objects-next :
    (k : ℕ) (h : Heap) (it it' : IntrusiveIterator) (p : Ptr) (ps : List Ptr)
    → differ_iter it end ≡ true
    → deref it h ≡ ok p h
    → next it h ≡ ok it' h
    → visit_objects k it' h ≡ ok (some ps) h
    → visit_objects (suc k) it h ≡ ok (some (p ∷ ps)) h
unfolding visit_objects
visit_objects-next k h it it' p ps d e f g = rw (d, e, f, g) refl

visit_objects-stop :
    (k : ℕ) (h : Heap) (it : IntrusiveIterator)
    → differ_iter it end ≡ false
    → visit_objects (suc k) it h ≡ ok (some []) h
unfolding visit_objects
visit_objects-stop k h it d = rw d refl

module _ (h : Heap) (l : IntrusiveSafeList) (this : Ptr) (live : this ≢ null) where
  differ-At : (p : Ptr) → (p == null) ≡ false → differ_iter (at_object l this p) end ≡ true
  unfolding differ_iter same_iter Iterator.same_iter
  differ-At p e = rw e

  differ-end : differ_iter (at_object l this null) end ≡ false
  unfolding differ_iter same_iter Iterator.same_iter
  differ-end = refl

  deref-At :
      (obj : Ptr) {n : ListHook}
      → obj < u64_mod
      → At h (get_hook l.offset obj) n
      → deref (at_object l this (get_hook l.offset obj)) h ≡ ok obj h
  unfolding deref
  deref-At obj small at =
      object_at-At h l (at_hook this (get_hook l.offset obj)) at
      ∙ ap (λ p. ok p h) (get_parent-get_hook l.offset obj small)

  next-At :
      (p q r : Ptr) → At h p (hook q r) → next (at_object l this p) h ≡ ok (at_object l this r) h
  unfolding next
  next-At p q r at = rw (increment-At h this live p q r at) refl

  visit_objects-Seg :
      (before : Ptr) (os : List Ptr) (k : ℕ)
      → Seg h before (hooks l.offset os) null
      → AllBelow u64_mod os
      → length os < k
      → visit_objects k (at_object l this (first_or null (hooks l.offset os))) h ≡ ok (some os) h
  visit_objects-Seg before os zero s small fuel = absurd (omega arith)
  visit_objects-Seg before [] (suc k) s small fuel =
      visit_objects-stop k h (at_object l this null) differ-end
  visit_objects-Seg before (o ∷ os) (suc k) s small fuel =
      let p = get_hook l.offset o in
      let at = At-first h before p (hooks l.offset os) null s in
      visit_objects-next k h (at_object l this p)
        (at_object l this (first_or null (hooks l.offset os))) o os (differ-At p (not_null at))
        (deref-At o small.0 at) (next-At p before (first_or null (hooks l.offset os)) at)
        (visit_objects-Seg p os k s.2 small.1 (omega arith))

-- On an `IntrusiveSafeList` that holds the objects `os` and does not stand at null, the
-- range-based `for` loop ends, given fuel above the length of `os`; it visits exactly `os`, in
-- order, and writes nothing.
pub visit_objects-begin :
    (h : Heap) (l : IntrusiveSafeList) (os : List Ptr) (this : Ptr) (k : ℕ)
    → HoldsObjects h l os
    → this ≢ null
    → length os < k
    → visit_objects k (begin this l) h ≡ ok (some os) h
unfolding begin
visit_objects-begin h l os this k holds live fuel =
    ap (λ it. visit_objects k (record { base_iter = it; parent = some l }) h)
      (begin-at_hook this l.base ∙ ap (at_hook this) holds.linked.head)
    ∙ visit_objects-Seg h l this live null os k holds.linked.chain holds.small fuel

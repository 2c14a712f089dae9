-- ===== src/SafeList/Iterator/Walk.antt =====
-- Walks over a list with `SafeList::Iterator` of include/safe_list.hpp.
use fredlib.Base.{
  ℕ, zero, suc, ◌<◌, ◌≡◌, refl, ◌≢◌, ap, true, false, some, List, [], ◌∷◌, ◌++◌, arith, ◌==◌,
  first_or, last_or, length, if◌then◌else◌, last_or-append_cons,
}
use mathlib.Core.Path.{◌∙◌, subst}
use mathlib.Core.List.{reverse, reverse-append}
use fredlib.SafeList.Heap.{Ptr, null, hook, Heap, ok}
use fredlib.SafeList.Ops.{SafeList}
use fredlib.SafeList.Chain.{Seg, At, not_null, load-ok, At-first, Seg-split}
use fredlib.SafeList.View.{IsList, is_nil, snoc_view}
use fredlib.SafeList.Iterator.{
  Iterator, end, new_iterator, begin, increment, decrement, same_iter, differ_iter, visit,
}

-- The iterator at a hook, and past the end if there is none.
abbrev pub at_hook : (this : Ptr) → Ptr → Iterator
at_hook this p = record { current = p; parent = if p == null then null else this }

pub begin-at_hook : (this : Ptr) (l : SafeList) → begin this l ≡ at_hook this l.head
unfolding begin
begin-at_hook this l = ground arith

-- `begin()` is what the constructor makes for the list object at `this`.
new_iterator-begin : (this : Ptr) (l : SafeList) → this ≢ null → new_iterator this l ≡ begin this l
unfolding new_iterator begin
new_iterator-begin this l live = ground arith

last_or-reverse : (zs : List Ptr) → last_or null (reverse zs) ≡ first_or null zs
last_or-reverse [] = refl
last_or-reverse (z ∷ zs) =
    ap (last_or null) (reverse-append (z ∷ []) zs) ∙ last_or-append_cons null (reverse zs) z []

module _ (h : Heap) (this : Ptr) (live : this ≢ null) where
  this-live : (this == null) ≡ false
  this-live = ground arith

  -- One step forward and one step back.
  pub increment-At :
      (p : Ptr) (q r : Ptr)
      → At h p (hook q r)
      → increment (at_hook this p) h ≡ ok (at_hook this r) h
  unfolding increment
  increment-At p q r at = rw (not_null at, this-live, load-ok at)

  decrement-At :
      (p : Ptr) (q r : Ptr)
      → At h p (hook q r)
      → decrement (at_hook this p) h ≡ ok (at_hook this q) h
  unfolding decrement
  decrement-At p q r at = rw (not_null at, this-live, load-ok at)

  differ-at : (p : Ptr) → (p == null) ≡ false → differ_iter (at_hook this p) end ≡ true
  unfolding differ_iter
  differ-at p e = rw e

  -- The loop over a segment visits its hooks in order.
  visit-Seg :
      (before : Ptr) (xs : List Ptr) (k : ℕ)
      → Seg h before xs null
      → length xs < k
      → visit k increment (at_hook this (first_or null xs)) h ≡ ok (some xs) h
  unfolding visit
  visit-Seg before xs zero s fuel = absurd (omega arith)
  visit-Seg before [] (suc k) s fuel = refl
  visit-Seg before (x ∷ xs) (suc k) s fuel =
      let at = At-first h before x xs null s in
      rw (differ-at x (not_null at), increment-At x before (first_or null xs) at)
        (rw (visit-Seg x xs k s.2 (omega arith)))

  -- Backwards over a segment that starts a list, from its last hook.
  visit-back :
      (zs : List Ptr) (after : Ptr) (k : ℕ)
      → Seg h null (reverse zs) after
      → length zs < k
      → visit k decrement (at_hook this (first_or null zs)) h ≡ ok (some zs) h
  unfolding visit
  visit-back zs after zero s fuel = absurd (omega arith)
  visit-back [] after (suc k) s fuel = refl
  visit-back (z ∷ zs) after (suc k) s fuel =
      let e : reverse (z ∷ zs) ≡ reverse zs ++ z ∷ [] = reverse-append (z ∷ []) zs in
      let (front, last) =
        Seg-split h null (reverse zs) (z ∷ []) after (subst (λ r. Seg h null r after) e s) in
      let at = At-first h (last_or null (reverse zs)) z [] after last in
      rw
        (
          differ-at z (not_null at),
          decrement-At z (last_or null (reverse zs)) after at,
          last_or-reverse zs,
        )
        (rw (visit-back zs z k front (omega arith)))

-- On a well-formed list of `xs` whose list object is not at null, the loop from `begin()` with
-- `++` up to `end()` visits exactly `xs`, in order, and writes nothing, given fuel above the
-- length of `xs`.
pub visit-begin :
    (h : Heap) (l : SafeList) (xs : List Ptr) (this : Ptr) (k : ℕ)
    → IsList h l xs
    → this ≢ null
    → length xs < k
    → visit k increment (begin this l) h ≡ ok (some xs) h
visit-begin h l xs this k is live fuel =
    rw (begin-at_hook this l, is.head) (visit-Seg h this live null xs k is.chain fuel)

-- On a well-formed list of `reverse zs` whose list object is not at null, the loop from the tail
-- with `--` up to `end()` visits exactly `zs`, in order, and writes nothing, given fuel above the
-- length of `zs`.
pub visit-reverse :
    (h : Heap) (l : SafeList) (zs : List Ptr) (this : Ptr) (k : ℕ)
    → IsList h l (reverse zs)
    → this ≢ null
    → length zs < k
    → visit k decrement (at_hook this l.tail) h ≡ ok (some zs) h
visit-reverse h l zs this k is live fuel =
    rw (is.tail, last_or-reverse zs) (visit-back h this live zs null k is.chain fuel)

-- `begin() == end()` exactly when the list is empty.
pub begin-end :
    (h : Heap) (l : SafeList) (xs : List Ptr) (this : Ptr)
    → IsList h l xs
    → same_iter (begin this l) end ≡ is_nil xs
unfolding begin same_iter
begin-end h l [] this is = ground (arith, is.head)
begin-end h l (x ∷ xs) this is =
    let e : (x == null) ≡ false = not_null (At-first h null x xs null is.chain) in
    rw (is.head, e, e)

-- At neighbours `x` and `y` of a well-formed list whose list object is not at null, `++` goes from
-- `x` to `y` and `--` goes from `y` back to `x`; neither writes anything.
pub step-neighbours :
    (h : Heap) (l : SafeList) (front : List Ptr) (x y : Ptr) (back : List Ptr) (this : Ptr)
    → IsList h l (front ++ x ∷ y ∷ back)
    → this ≢ null
    → (increment (at_hook this x) h ≡ ok (at_hook this y) h)
      × (decrement (at_hook this y) h ≡ ok (at_hook this x) h)
step-neighbours h l front x y back this is live =
    let (_, s) = Seg-split h null front (x ∷ y ∷ back) null is.chain in
    (
      increment-At h this live x (last_or null front) y (At-first h _ x (y ∷ back) null s),
      decrement-At h this live y x (first_or null back) (At-first h x y back null s.2),
    )

pub step-ends :
    (h : Heap) (l : SafeList) (this : Ptr) (x : Ptr) (xs : List Ptr)
    → IsList h l (x ∷ xs)
    → this ≢ null
    → (increment (at_hook this l.tail) h ≡ ok end h)
      × (decrement (at_hook this l.head) h ≡ ok end h)
step-ends h l this x xs is live =
    let (front, e) = snoc_view x xs in
    let whole = subst (λ zs. Seg h null zs null) e is.chain in
    let (_, last) = Seg-split h null front (last_or x xs ∷ []) null whole in
    (
      rw is.tail (
          increment-At h this live (last_or x xs) (last_or null front) null
            (At-first h _ (last_or x xs) [] null last)),
      rw is.head
          (decrement-At h this live x null (first_or null xs) (At-first h null x xs null is.chain)),
    )

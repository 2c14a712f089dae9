-- ===== src/SafeList/Chain.antt =====
-- Doubly linked segments: what the hooks of a part of a list hold.
use fredlib.Base.{
  ◌≡◌, refl, ◌≢◌, true, false, some, List, [], ◌∷◌, ◌++◌, arith, ◌==◌, has, Distinct, first_or,
  last_or,
}
use fredlib.SafeList.Heap.{
  Ptr, null, ListHook, hook, Heap, write, ok, load, set_prev, set_next, when_set,
}
use fredlib.SafeList.Returns
use fredlib.SafeList.Returns.{Returns, returns}

-- The hooks `xs` are linked in this order; `before` precedes the first and `after` follows the last.
abbrev pub Seg : Heap → (before : Ptr) → List Ptr → (after : Ptr) → Type 0
Seg h before [] after = Unit
Seg h before (x ∷ xs) after =
    (x ≢ null) × (h x ≡ some (hook before (first_or after xs))) × Seg h x xs after

-- `g` differs from `h` at most at the addresses of `xs`.
abbrev pub SameOutside : List Ptr → Heap → Heap → Type 0
SameOutside xs h g = (p : Ptr) → has p xs ≡ false → g p ≡ h p

module _ (h : Heap) where
  pub Seg-same :
      {g : Heap} (before : Ptr) (xs : List Ptr) (after : Ptr)
      → Seg h before xs after
      → ((p : Ptr) → has p xs ≡ true → g p ≡ h p)
      → Seg g before xs after
  Seg-same before [] after s same = tt
  Seg-same before (x ∷ xs) after s same =
      (s.0, ground (arith, same x), Seg-same x xs after s.2 (λ p i. ground (arith, same p)))

  pub Seg-append :
      (before : Ptr) (xs ys : List Ptr) (after : Ptr)
      → Seg h before xs (first_or after ys)
      → Seg h (last_or before xs) ys after
      → Seg h before (xs ++ ys) after
  Seg-append before [] ys after s t = t
  Seg-append before (x ∷ []) ys after s t = (s.0, s.1, t)
  Seg-append before (x ∷ y ∷ xs) ys after s t = (s.0, s.1, Seg-append x (y ∷ xs) ys after s.2 t)

  pub Seg-split :
      (before : Ptr) (xs ys : List Ptr) (after : Ptr)
      → Seg h before (xs ++ ys) after
      → Seg h before xs (first_or after ys) × Seg h (last_or before xs) ys after
  Seg-split before [] ys after s = (tt, s)
  Seg-split before (x ∷ []) ys after s = ((s.0, s.1, tt), s.2)
  Seg-split before (x ∷ y ∷ xs) ys after s =
      let (front, back) = Seg-split x (y ∷ xs) ys after s.2 in ((s.0, s.1, front), back)

  -- The last hook of a segment is not null.
  pub last_or-live :
      (before x : Ptr) (xs : List Ptr) (after : Ptr)
      → Seg h before (x ∷ xs) after
      → last_or x xs ≢ null
  last_or-live before x [] after s = s.0
  last_or-live before x (y ∷ ys) after s = last_or-live x y ys after s.2

-- There is a hook at `p`, and it holds `n`.
pub record At (h : Heap) (p : Ptr) (n : ListHook) : Type 0 where
  pub live : p ≢ null
  pub holds : h p ≡ some n

module _ {h : Heap} {p : Ptr} {n : ListHook} (at : At h p n) where
  pub not_null : (p == null) ≡ false
  not_null = ground arith

  pub load-ok : load p h ≡ ok n h
  unfolding load
  load-ok = rw (not_null, at.holds)

  pub set_prev-ok : (v : Ptr) → set_prev p v h ≡ ok tt (write h p (record n { prev = v }))
  unfolding set_prev
  set_prev-ok v = rw load-ok

  pub set_next-ok : (v : Ptr) → set_next p v h ≡ ok tt (write h p (record n { next = v }))
  unfolding set_next
  set_next-ok v = rw load-ok

  pub At-write : (m : ListHook) → At (write h p m) p m
  unfolding write
  At-write m = ground arith

  pub At-write_ne : (q : Ptr) (m : ListHook) → q ≢ p → At (write h q m) p n
  unfolding write
  At-write_ne q m ne = ground arith

-- The first hook of a segment.
pub At-first :
    (h : Heap) (before x : Ptr) (xs : List Ptr) (after : Ptr)
    → Seg h before (x ∷ xs) after
    → At h x (hook before (first_or after xs))
At-first h before x xs after s = record { live = s.0; holds = s.1 }

-- The last hook of a segment is given another successor.
set_next-last :
    (h : Heap) (before x : Ptr) (xs : List Ptr) (after v : Ptr)
    → Seg h before (x ∷ xs) after
    → Distinct (x ∷ xs)
    → Returns
        (λ _ g. Seg g before (x ∷ xs) v × SameOutside (x ∷ xs) h g)
        (set_next (last_or x xs) v h)
unfolding write
set_next-last h before x [] after v s d =
    rw (set_next-ok (At-first h before x [] after s) v)
      (returns ((s.0, ground arith, tt), ground arith))
set_next-last h before x (y ∷ ys) after v s d =
    Returns.weaken (set_next-last h x y ys after v s.2 d.1)
      λ _ g (seg, same). ((s.0, ground (arith, same x), seg), λ p o. ground (arith, same p))

pub when_set-next :
    (h : Heap) (xs : List Ptr) (after v : Ptr)
    → Seg h null xs after
    → Distinct xs
    → Returns
        (λ _ g. Seg g null xs v × SameOutside xs h g)
        (when_set (last_or null xs) (set_next (last_or null xs) v) h)
unfolding when_set
when_set-next h [] after v s d = returns (tt, λ p o. refl)
when_set-next h (x ∷ xs) after v s d =
    let set : (last_or x xs == null) ≡ false = ground (arith, last_or-live h null x xs after s) in
    rw set (set_next-last h null x xs after v s d)

pub when_set-prev :
    (h : Heap) (before v : Ptr) (xs : List Ptr)
    → Seg h before xs null
    → Distinct xs
    → Returns
        (λ _ g. Seg g v xs null × SameOutside xs h g)
        (when_set (first_or null xs) (set_prev (first_or null xs) v) h)
unfolding when_set write
when_set-prev h before v [] s d = returns (tt, λ p o. refl)
when_set-prev h before v (x ∷ xs) s d =
    let at = At-first h before x xs null s in
    rw (not_null at, set_prev-ok at v)
      (returns
        ((s.0, ground arith, Seg-same h x xs null s.2 (λ p i. ground arith)), λ p o. ground arith))

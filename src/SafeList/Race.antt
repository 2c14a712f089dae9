-- ===== src/SafeList/Race.antt =====
-- Calls of include/safe_list.hpp that break a list: `push_front` when another thread pops the head
-- between its read of `mHead` and its lock, and `erase` of a hook that is in no list.
use fredlib.Base.{
  inl, inr, Bool-cases, ==_iff, ℕ, ◌+◌, ◌-◌, ◌%◌, ◌<◌, ◌≡◌, refl, ◌≢◌, ap, true, false, some, none,
  List, [], ◌∷◌, arith, ◌==◌, has, first_or, last_or, length, Option,
}
use mathlib.Core.Bool.{false≢true}
use mathlib.Core.Path.{◌∙◌, sym, subst, ap₂}
use fredlib.SafeList.Heap.{Ptr, null, clean, ListHook, hook, Heap, write, when_set, ok}
use fredlib.SafeList.Hook.{unlink}
use fredlib.SafeList.Ops.{SafeList, u32_mod, insert, push_front, erase}
use fredlib.SafeList.Returns
use fredlib.SafeList.Returns.{Returns, returns}
use fredlib.SafeList.Chain.{
  Seg, Seg-same, At, not_null, load-ok, set_prev-ok, set_next-ok, At-write,
}
use fredlib.SafeList.Links.{link_before-Seg}
use fredlib.SafeList.View.{IsList, is_empty-is_nil}
use fredlib.SafeList.Insert.{insert-Refused, not_in_list}

-- A hook in a sequence is not one that is outside.
differs : (p q : Ptr) (xs : List Ptr) → has p xs ≡ true → has q xs ≡ false → (p == q) ≡ false
differs p q xs i o = elim (Bool-cases (p == q)) [
  | inl hit ↦
      absurd (false≢true (sym (subst (λ r. has r xs ≡ false) (sym ((==_iff p q).0 hit)) o) ∙ i))
  | inr miss ↦ miss
]

rest-of : (p q : Ptr) (xs : List Ptr) → has p (q ∷ xs) ≡ false → has p xs ≡ false
rest-of p q xs h = ground arith

-- A chain that starts at a given hook is one sequence.
chain_unique :
    (h : Heap) (b c : Ptr) (xs zs : List Ptr)
    → Seg h b xs null
    → Seg h c zs null
    → first_or null xs ≡ first_or null zs
    → xs ≡ zs
chain_unique h b c [] [] s t e = refl
chain_unique h b c [] (z ∷ zs) s t e = absurd (t.0 (sym e))
chain_unique h b c (x ∷ xs) [] s t e = absurd (s.0 e)
chain_unique h b c (x ∷ xs) (z ∷ zs) s t e =
    let hooks : some (hook b (first_or null xs)) ≡ some (hook c (first_or null zs)) =
      sym s.1 ∙ ap h e ∙ t.1 in
    let nexts : first_or null xs ≡ first_or null zs = ap next_of hooks in
    ap₂ {C = List Ptr} ◌∷◌ e (chain_unique h x z xs zs s.2 t.2 nexts)
  where
    next_of : Option ListHook → Ptr
    next_of none = null
    next_of (some n) = n.next

-- A list whose counter is off by one modulo 2 ^ 32 stands for no sequence.
miscounted :
    (h : Heap) (l : SafeList) (xs : List Ptr) (d : ℕ)
    → Seg h null xs null
    → l.head ≡ first_or null xs
    → l.size ≡ (length xs + d) % u32_mod
    → 0 < d
    → d < u32_mod
    → (zs : List Ptr) → ¬ IsList h l zs
miscounted h l xs d s e c low high zs is =
    let same = chain_unique h null null xs zs s is.chain (sym e ∙ is.head) in
    let counted : l.size ≡ length xs % u32_mod =
      is.size ∙ sym (ap (λ r. length r % u32_mod) same) in
    omega arith

module _ (h : Heap) (l : SafeList) (front new : Ptr) (old : ListHook) (at : At h new old)
    (gone : At h front clean) where
  -- `front` was the head when `push_front` read it, and has been popped since. If the list is empty
  -- now, `push_front` is refused: it returns false, and the hook is not in the list.
  pub push_front-race_empty : IsList h l [] → push_front front new l h ≡ ok (false, l) h
  unfolding push_front
  push_front-race_empty is = insert-Refused h l front new [] is (not_in_list refl gone.live)

  -- If the head `front` that `push_front` read before it took the mutex has been popped by then,
  -- is clean, and the well-formed list is not empty, `push_front` of another live hook `new` that
  -- is not in the list reports success, links `new` to `front` outside the list, leaves the list's
  -- hooks linked as they were, and the object then stands for no sequence at all.
  pub push_front-race :
      (x : Ptr) (xs : List Ptr)
      → IsList h l (x ∷ xs)
      → has front (x ∷ xs) ≡ false
      → has new (front ∷ x ∷ xs) ≡ false
      → Returns
          (λ (done, l') g.
            (done ≡ true)
            × (g new ≡ some (hook null front))
            × (g front ≡ some (hook new null))
            × Seg g null (x ∷ xs) null
            × ((zs : List Ptr) → ¬ IsList g l' zs))
          (push_front front new l h)
  unfolding push_front insert
  push_front-race x xs is stale fresh =
      let filled = is_empty-is_nil h l (x ∷ xs) is in
      let kept : (l.head == front) ≡ false = rw is.head (ground arith) in
      rw (not_null at, filled, not_null gone)
        (Returns.then_then _ _
          (link_before-Seg h new old at [] front [] (gone.live, gone.holds, tt) (refl, tt)
            (ground arith))
          λ _ g (seg, same). rw kept (
            let chain : Seg g null (x ∷ xs) null =
              Seg-same h {g = g} null (x ∷ xs) null is.chain (λ p i. same p (out p i)) in
            returns (
              refl,
              seg.1,
              seg.2.1,
              chain,
              miscounted g _ (x ∷ xs) 1 chain is.head (omega (arith, is.size)) (omega arith)
                  (omega arith),
            )))
    where
      out : (p : Ptr) → has p (x ∷ xs) ≡ true → has p (new ∷ front ∷ []) ≡ false
      out p i = rw (
        differs p new (x ∷ xs) i (rest-of new front (x ∷ xs) fresh),
        differs p front (x ∷ xs) i stale,
      )

last_or-or_null : (p x : Ptr) (xs : List Ptr) → has p (x ∷ xs) ≡ false → (p == last_or x xs) ≡ false
last_or-or_null p x [] o = ground arith
last_or-or_null p x (y ∷ ys) o = last_or-or_null p y ys (rest-of p x (y ∷ ys) o)

-- A hook outside the list is neither its head nor its tail.
not_an_end :
    (h : Heap) (l : SafeList) (xs : List Ptr) (n : Ptr)
    → IsList h l xs
    → n ≢ null
    → has n xs ≡ false
    → ((n == l.tail) ≡ false) × ((n == l.head) ≡ false)
not_an_end h l [] n is live o = (rw is.tail (ground arith), rw is.head (ground arith))
not_an_end h l (x ∷ xs) n is live o =
    (rw is.tail (last_or-or_null n x xs o), rw is.head (ground arith))

-- `erase` of a clean hook that is not in a well-formed list reports success and leaves the list's
-- hooks linked as they were, but the object then stands for no sequence at all, since the size is
-- one less.
pub erase-stranger :
    (h : Heap) (l : SafeList) (xs : List Ptr) (n : Ptr)
    → IsList h l xs
    → At h n clean
    → has n xs ≡ false
    → Returns
        (λ (done, l') g. (done ≡ true) × Seg g null xs null × ((zs : List Ptr) → ¬ IsList g l' zs))
        (erase n l h)
unfolding erase unlink when_set write
erase-stranger h l xs n is at o =
    let (not_tail, not_head) = not_an_end h l xs n is at.live o in
    rw (not_null at, not_tail, not_head, load-ok at, load-ok at, set_prev-ok at null)
      (rw (set_next-ok (At-write at clean) null) (
        returns (
          refl,
          chain,
          miscounted _ _ xs (u32_mod - 1) chain is.head (omega (arith, is.size)) (omega arith)
              (omega arith),
        )))
  where
    chain : Seg (write (write h n clean) n clean) null xs null
    chain = Seg-same h null xs null is.chain (λ p i. let ne = differs p n xs i o in ground arith)

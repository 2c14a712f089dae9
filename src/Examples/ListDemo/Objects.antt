-- ===== src/Examples/ListDemo/Objects.antt =====
-- What the second half of examples/list.cpp, about `IntrusiveSafeList`, prints.
use fredlib.Base.{
  ℕ, ◌+◌, ◌<◌, ◌≡◌, ◌≢◌, refl, sym, ap, ◌∙◌, subst, true, false, Option, none, some, List, [], ◌∷◌,
  ◌++◌, arith, has, ◌==◌, if◌then◌else◌,
}
use fredlib.SafeList.Heap.{Ptr, null, Heap, ok, pure, ◌>>=◌}
use fredlib.SafeList.Returns
use fredlib.SafeList.Returns.{Returns, returns}
use fredlib.SafeList.Ops
use fredlib.SafeList.Ops.{popped, new_list, size}
use fredlib.SafeList.World.{World}
use fredlib.SafeList.View.{IsList}
use fredlib.SafeList.Client.{push_back-World, pop_front-World}
use fredlib.SafeList.Intrusive
use fredlib.SafeList.Intrusive.{
  u64_mod, IntrusiveSafeList, new_intrusive, get_hook, begin, visit_objects, parent_of,
}
use fredlib.SafeList.Objects.{HoldsObjects, parent_of-hook}
use fredlib.SafeList.ObjectWalk.{visit_objects-begin}
use fredlib.Examples.ListDemo.{
  data_of, got, pop_object, push_object, print_ints, all_visited, intrusive_safe_list_demo,
}
use fredlib.Examples.ListDemo.Output.{read-World, read-some}

-- The list holds `xs` and keeps the place of the hooks.
abbrev Kept : (pool : List Ptr) (f : ℕ) (xs : List Ptr) → IntrusiveSafeList → Heap → Type 0
Kept pool f xs l h = (l.offset ≡ f) × World pool h l.base xs

module _ (pool : List Ptr) (f obj : Ptr) (h : Heap) (l : IntrusiveSafeList) where
  push_object-Kept :
      (xs : List Ptr)
      → Kept pool f xs l h
      → has (get_hook f obj) pool ≡ true
      → has (get_hook f obj) xs ≡ false
      → Returns (Kept pool f (xs ++ get_hook f obj ∷ [])) (push_object obj l h)
  unfolding push_object Intrusive.push_back
  push_object-Kept xs (e, w) i o =
      Returns.then_then _ _
        (subst
          (λ k.
            Returns (λ (b, l') g. World pool g l' (xs ++ get_hook f obj ∷ []))
              (Ops.push_back (get_hook k obj) l.base h))
          (sym e) (push_back-World pool h l.base xs (get_hook f obj) w i o))
        λ (b, l') g w'. returns (e, w')

  pop_object-Kept :
      (xs : List Ptr)
      → obj < u64_mod
      → Kept pool f (get_hook f obj ∷ xs) l h
      → Returns (λ (p, l') g. (p ≡ obj) × Kept pool f xs l' g) (pop_object l h)
  unfolding pop_object Intrusive.pop_front got
  pop_object-Kept xs small (e, w) =
      let live = (w.view.chain).0 in
      Returns.then_then _ _ (pop_front-World pool h l.base (get_hook f obj) xs 0 0 false w)
        λ (r, l') g (d, w').
          subst
            (λ q.
              Returns (λ (p, l'') k. (p ≡ obj) × Kept pool f xs l'' k)
                ((do p ← got q; pure (p, record l { base = l' })) g))
            (sym (
              ap (parent_of l.offset) d
              ∙ ap (λ k. parent_of k (popped (get_hook f obj))) e
              ∙ parent_of-hook f obj small live))
            (returns (refl, (e, w')))

  visit_objects-one :
      (this : Ptr)
      → this ≢ null
      → obj < u64_mod
      → Kept pool f (get_hook f obj ∷ []) l h
      → visit_objects (size l.base + 1) (begin this l) h ≡ ok (some (obj ∷ [])) h
  unfolding size
  visit_objects-one this live small (e, w) =
      let holds : HoldsObjects h l (obj ∷ []) = record {
        linked = subst (λ k. IsList h l.base (get_hook k obj ∷ [])) (sym e) w.view;
        small = (small, tt);
      } in
      visit_objects-begin h l (obj ∷ []) this (l.base.size + 1) holds live
        (omega (arith, w.view.size))

-- `intrusive_safe_list_demo`, with the list not at null and the object at an address of 64 bits with a clean
-- hook, ends without a fault and prints the datum 5 three times.
pub intrusive_safe_list_demo-prints :
    (this obj : Ptr) (member : ℕ) (h : Heap)
    → this ≢ null
    → obj < u64_mod
    → World (get_hook member obj ∷ []) h new_list []
    → Returns
        (λ ls g. ls ≡ data_of 5 ∷ data_of 5 ∷ data_of 5 ∷ [])
        (intrusive_safe_list_demo this obj member h)
unfolding intrusive_safe_list_demo all_visited print_ints
intrusive_safe_list_demo-prints this obj member h live small w0 =
    let p = get_hook member obj in
    let pool = p ∷ [] in
    let ints : Ptr → Option ℕ = λ q. if q == obj then some 5 else none in
    let five : ints obj ≡ some 5 = ground arith in
    Returns.then
      (push_object-Kept pool member obj h (new_intrusive member) [] (refl, w0) (ground arith) refl)
      λ l1 h1 k1.
        Returns.then (pop_object-Kept pool member obj h1 l1 [] small k1) λ (pdata, l2) h2 (e, k2).
          Returns.then (read-World pool l2.base [] ints pdata 5 h2 k2.1 (ap ints e ∙ five))
            λ n g2 (d, w2).
              Returns.then
                (push_object-Kept pool member obj g2 l2 [] (k2.0, w2) (ground arith) refl)
                λ l3 h3 k3.
                  rw
                    (
                      visit_objects-one pool member obj h3 l3 this live small k3,
                      read-some ints obj 5 h3 five,
                      d,
                    )
                    (rw
                      (
                        visit_objects-one pool member obj h3 l3 this live small k3,
                        read-some ints obj 5 h3 five,
                      )
                      (returns refl))

-- ===== src/Examples/ListDemo/Output.antt =====
-- What examples/list.cpp prints.
use fredlib.Base.{
  ℕ, ◌+◌, ◌<◌, ◌≡◌, ◌≢◌, refl, ap, ◌∙◌, true, false, Option, some, List, [], ◌∷◌, ◌++◌, arith, has,
  Distinct,
}
use fredlib.SafeList.Heap.{Ptr, null, Heap, ok, pure, ◌>>=◌}
use fredlib.SafeList.Returns
use fredlib.SafeList.Returns.{Returns, returns}
use fredlib.SafeList.Ops.{SafeList, new_list, size}
use fredlib.SafeList.World.{World}
use fredlib.SafeList.Client.{push_back-World, pop_front-World, size-World}
use fredlib.SafeList.Iterator.{begin, increment, visit}
use fredlib.SafeList.Iterator.Walk.{visit-begin}
use fredlib.SafeList.Intrusive.{u64_mod, get_hook, get_parent}
use fredlib.SafeList.Objects.{get_parent-get_hook}
use fredlib.Examples.ListDemo.{
  Locals, int_of, Line, list_size, data_of, read_int, got, pop, push, print_ints, all_visited,
  safe_list_demo,
}

module _ (pool : List Ptr) (h : Heap) (l : SafeList) where
  push-World :
      (xs : List Ptr) (new : Ptr)
      → World pool h l xs
      → has new pool ≡ true
      → has new xs ≡ false
      → Returns (λ l' g. World pool g l' (xs ++ new ∷ [])) (push new l h)
  unfolding push
  push-World xs new w i f =
      Returns.then (push_back-World pool h l xs new w i f) λ (b, l') g w'. returns w'

  pop-World :
      (x : Ptr) (xs : List Ptr)
      → World pool h l (x ∷ xs)
      → Returns (λ (p, l') g. (p ≡ x) × World pool g l' xs) (pop l h)
  unfolding pop got
  pop-World x xs w =
      Returns.then (pop_front-World pool h l x xs 0 0 false w)
        λ (r, l') g (e, w'). rw e (returns (refl, w'))

-- The hooks of the five objects.
abbrev pub hooks_of : Locals → List Ptr
hooks_of f =
    get_hook f.member f.data1
    ∷ get_hook f.member f.data2
    ∷ get_hook f.member f.data3
    ∷ f.derived
    ∷ f.data7
    ∷ []

-- The five objects stand at different addresses of 64 bits, and so do their hooks. The list object
-- is not at null.
pub record LaidOut (f : Locals) : Type 0 where
  pub apart : Distinct (f.data1 ∷ f.data2 ∷ f.data3 ∷ f.derived ∷ f.data7 ∷ [])
  pub hooks_apart : Distinct (hooks_of f)
  pub small : f.data1 < u64_mod
  pub list_live : f.list ≢ null

int_of-data1 : (f : Locals) → LaidOut f → int_of f f.data1 ≡ some 1
unfolding int_of
int_of-data1 f lay = ground arith

int_of-derived : (f : Locals) → LaidOut f → int_of f f.derived ≡ some 3
unfolding int_of
int_of-derived f lay = ground (arith, lay.apart)

int_of-data7 : (f : Locals) → LaidOut f → int_of f f.data7 ≡ some 7
unfolding int_of
int_of-data7 f lay = ground (arith, lay.apart)

pub read-some :
    (ints : Ptr → Option ℕ) (p : Ptr) (n : ℕ) (h : Heap)
    → ints p ≡ some n
    → read_int ints p h ≡ ok n h
unfolding read_int
read-some ints p n h e = rw (e, read_int) refl

pub read-World :
    (pool : List Ptr) (l : SafeList) (xs : List Ptr) (ints : Ptr → Option ℕ) (p : Ptr) (n : ℕ)
    (h : Heap)
    → World pool h l xs
    → ints p ≡ some n
    → Returns (λ m g. (m ≡ n) × World pool g l xs) (read_int ints p h)
read-World pool l xs ints p n h w e = rw (read-some ints p n h e) (returns (refl, w))

-- The end of the demo: the loop over the list of one container.
loop-Returns :
    (f : Locals) (h : Heap) (l : SafeList) (front : List Line)
    → LaidOut f
    → World (hooks_of f) h l (f.data7 ∷ [])
    → Returns
        (λ ls g. ls ≡ front ++ data_of 7 ∷ [])
        ((do
          visited ← visit (size l + 1) increment (begin f.list l)
          hooks ← all_visited visited
          ls ← print_ints (int_of f) hooks
          pure (front ++ ls))
          h)
unfolding all_visited print_ints size
loop-Returns f h l front lay w =
    rw
      (
        visit-begin h l (f.data7 ∷ []) f.list (l.size + 1) w.view lay.list_live
            (omega (arith, w.view.size)),
        read-some (int_of f) f.data7 7 h (int_of-data7 f lay),
      )
      (returns refl)

-- If the five objects of `safe_list_demo` stand at different addresses with clean hooks at
-- different addresses, the first object below 2 ^ 64 and the list object not at null, then the
-- demo ends without a fault and prints the sizes 3 and 0 and the data 1, 3, 7 and 7.
pub safe_list_demo-prints :
    (f : Locals) (h : Heap)
    → LaidOut f
    → World (hooks_of f) h new_list []
    → Returns
        (λ ls g.
          ls ≡ list_size 3 ∷ list_size 0 ∷ data_of 1 ∷ data_of 3 ∷ data_of 7 ∷ data_of 7 ∷ [])
        (safe_list_demo f h)
unfolding safe_list_demo
safe_list_demo-prints f h lay w0 =
    let pool = hooks_of f in
    let a = get_hook f.member f.data1 in
    let b = get_hook f.member f.data2 in
    let c = get_hook f.member f.data3 in
    Returns.then (push-World pool h new_list [] a w0 (ground (arith)) refl) λ l1 h1 w1.
      Returns.then
        (push-World pool h1 l1 (a ∷ []) b w1 (ground (arith)) (ground (arith, lay.hooks_apart)))
        λ l2 h2 w2.
          Returns.then
            (push-World pool h2 l2 (a ∷ b ∷ []) c w2 (ground (arith))
              (ground (arith, lay.hooks_apart)))
            λ l3 h3 w3.
              Returns.then (pop-World pool h3 l3 a (b ∷ c ∷ []) w3) λ (p1, l4) h4 (e1, w4).
                Returns.then (pop-World pool h4 l4 b (c ∷ []) w4) λ (p2, l5) h5 (e2, w5).
                  Returns.then (pop-World pool h5 l5 c [] w5) λ (p3, l6) h6 (e3, w6).
                    Returns.then
                      (read-World pool l6 [] (int_of f) (get_parent f.member p1) 1 h6 w6 (
                        ap (λ p. int_of f (get_parent f.member p)) e1
                        ∙ ap (int_of f) (get_parent-get_hook f.member f.data1 lay.small)
                        ∙ int_of-data1 f lay))
                      λ n1 g6 (d1, v6).
                        Returns.then (push-World pool g6 l6 [] f.derived v6 (ground arith) refl)
                          λ l7 h7 w7.
                            Returns.then (pop-World pool h7 l7 f.derived [] w7)
                              λ (p4, l8) h8 (e4, w8).
                                Returns.then
                                  (read-World pool l8 [] (int_of f) p4 3 h8 w8
                                    (ap (int_of f) e4 ∙ int_of-derived f lay))
                                  λ n3 g8 (d3, v8).
                                    Returns.then
                                      (push-World pool g8 l8 [] f.data7 v8 (ground arith) refl)
                                      λ l9 h9 w9.
                                        Returns.then (pop-World pool h9 l9 f.data7 [] w9)
                                          λ (p5, l10) h10 (e5, w10).
                                            Returns.then
                                              (read-World pool l10 [] (int_of f) p5 7 h10 w10
                                                (ap (int_of f) e5 ∙ int_of-data7 f lay))
                                              λ n7 g10 (d7, v10).
                                                Returns.then
                                                  (push-World pool g10 l10 [] f.data7 v10
                                                    (ground arith) refl)
                                                  λ l11 h11 w11.
                                                    rw
                                                      (
                                                        size-World pool h3 l3 (a ∷ b ∷ c ∷ []) w3,
                                                        size-World pool h6 l6 [] w6,
                                                        d1,
                                                        d3,
                                                        d7,
                                                      )
                                                      (loop-Returns f h11 l11
                                                        (list_size 3
                                                          ∷ list_size 0
                                                          ∷ data_of 1
                                                          ∷ data_of 3
                                                          ∷ data_of 7
                                                          ∷ [])
                                                        lay w11)

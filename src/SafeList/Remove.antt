-- ===== src/SafeList/Remove.antt =====
-- `erase`, `pop_front` and `pop_back` of include/safe_list.hpp.
use fredlib.Base.{
  ℕ, ◌⊎◌, ◌+◌, ◌-◌, ◌%◌, ◌≡◌, refl, ◌≢◌, ap, Bool, true, false, some, List, [], ◌∷◌, ◌++◌, arith,
  ◌==◌, has, Distinct, first_or, last_or, length-append, has-append, if◌then◌else◌,
  last_or-append_cons,
}
use mathlib.Core.List.{append-nil}
use mathlib.Core.Path.{◌∙◌, sym, subst}
use fredlib.SafeList.Heap.{Ptr, null, clean, hook, Heap, Outcome, ok}
use fredlib.SafeList.Ops.{
  SafeList, u32_mod, is_empty, erase, erase_tail, erase_head, Popped, blocked, popped, pop_front,
  pop_back,
}
use fredlib.SafeList.Returns
use fredlib.SafeList.Returns.{Returns, returns}
use fredlib.SafeList.Chain.{Seg, SameOutside, At, not_null, load-ok, At-first, Seg-split}
use fredlib.SafeList.Links.{unlink-Seg, Distinct-split}
use fredlib.SafeList.View.{IsList, is_empty-is_nil}
use fredlib.SafeList.Push.{is_nil-append_cons}

-- The list has shrunk to `zs` by the hook `n`, which is clean, and nothing was written at a hook
-- that was not in the list.
pub record Shrunk (h : Heap) (xs : List Ptr) (n : Ptr) (ys : List Ptr) (l : SafeList) (g : Heap)
    : Type 0 where
  pub view : IsList g l (xs ++ ys)
  pub cleaned : g n ≡ some clean
  pub same : SameOutside (xs ++ n ∷ ys) h g

last_or-has : (x : Ptr) (xs : List Ptr) → has (last_or x xs) (x ∷ xs) ≡ true
last_or-has x [] = ground arith
last_or-has x (y ∷ ys) = ground (arith, last_or-has y ys)

Distinct-drop :
    (xs : List Ptr) (n : Ptr) (ys : List Ptr) → Distinct (xs ++ n ∷ ys) → Distinct (xs ++ ys)
Distinct-drop [] n ys d = d.1
Distinct-drop (x ∷ xs) n ys d =
    (ground (arith, has-append x xs ys, has-append x xs (n ∷ ys)), Distinct-drop xs n ys d.1)

module _ (h : Heap) (l : SafeList) (xs : List Ptr) (n : Ptr) (ys : List Ptr)
    (is : IsList h l (xs ++ n ∷ ys)) where
  full : is_empty l ≡ false
  full = is_empty-is_nil h l _ is ∙ is_nil-append_cons xs n ys

  At-n : At h n (hook (last_or null xs) (first_or null ys))
  At-n = At-first h _ n ys null (Seg-split h null xs (n ∷ ys) null is.chain).1

  tail_n : l.tail ≡ last_or n ys
  tail_n = is.tail ∙ last_or-append_cons null xs n ys

  not_first : (x : Ptr) (zs : List Ptr) → xs ≡ x ∷ zs → (n == x) ≡ false
  not_first x zs e =
      ground (arith, subst (λ r. Distinct (r ++ n ∷ ys)) e is.distinct, has-append x zs (n ∷ ys))

  not_last : (y : Ptr) (zs : List Ptr) → ys ≡ y ∷ zs → (n == last_or y zs) ≡ false
  not_last y zs e = ground (arith, (Distinct-split xs (n ∷ ys) is.distinct).1, last_or-has y zs)

  -- The list after the hook has been taken out.
  IsList-drop :
      (g : Heap) (l' : SafeList)
      → Seg g null (xs ++ ys) null
      → l'.head ≡ first_or null (xs ++ ys)
      → l'.tail ≡ last_or null (xs ++ ys)
      → l'.size ≡ (l.size + u32_mod - 1) % u32_mod
      → l'.asleep ≡ []
      → IsList g l' (xs ++ ys)
  IsList-drop g l' seg e f s w = record {
    chain = seg;
    distinct = Distinct-drop xs n ys is.distinct;
    head = e;
    tail = f;
    size = omega (arith, s, is.size, length-append xs (n ∷ ys), length-append xs ys);
    awake = λ _. w;
  }

-- The reads of the neighbours in `erase`.
erase_tail-ok :
    (h : Heap) (l : SafeList) (xs : List Ptr) (n : Ptr) (ys : List Ptr)
    → IsList h l (xs ++ n ∷ ys)
    → erase_tail n l h ≡ ok (record l { tail = last_or null (xs ++ ys) }) h
unfolding erase_tail
erase_tail-ok h l xs n [] is =
    let last : (n == l.tail) ≡ true = ground (arith, tail_n h l xs n [] is) in
    rw (last, load-ok (At-n h l xs n [] is), append-nil)
erase_tail-ok h l xs n (y ∷ ys) is =
    let last : (n == l.tail) ≡ false =
      ground (arith, tail_n h l xs n (y ∷ ys) is, not_last h l xs n (y ∷ ys) is y ys refl) in
    rw last (
      ap {B = Outcome SafeList} (λ t. ok (record l { tail = t }) h)
        (tail_n h l xs n (y ∷ ys) is ∙ sym (last_or-append_cons null xs y ys)))

erase_head-ok :
    (h : Heap) (l l' : SafeList) (xs : List Ptr) (n : Ptr) (ys : List Ptr)
    → IsList h l (xs ++ n ∷ ys)
    → l'.head ≡ l.head
    → erase_head n l' h ≡ ok (record l' { head = first_or null (xs ++ ys) }) h
unfolding erase_head
erase_head-ok h l l' [] n ys is e =
    let first : (n == l'.head) ≡ true = ground (arith, e, is.head) in
    rw (first, load-ok (At-n h l [] n ys is))
erase_head-ok h l l' (x ∷ xs) n ys is e =
    let first : (n == l'.head) ≡ false =
      ground (arith, e, is.head, not_first h l (x ∷ xs) n ys is x xs refl) in
    rw first (ap {B = Outcome SafeList} (λ t. ok (record l' { head = t }) h) (e ∙ is.head))

module _ (h : Heap) (l : SafeList) (xs : List Ptr) (n : Ptr) (ys : List Ptr)
    (is : IsList h l (xs ++ n ∷ ys)) where
  -- `erase` of a hook `n` in a well-formed list of `xs ++ n ∷ ys` succeeds: the list is a
  -- well-formed one of `xs ++ ys`, the hook is clean, and no hook outside the old list was
  -- written.
  pub erase_lem : Returns (λ (done, l') g. (done ≡ true) × Shrunk h xs n ys l' g) (erase n l h)
  unfolding erase
  erase_lem =
      rw
        (
          not_null (At-n h l xs n ys is),
          erase_tail-ok h l xs n ys is,
          erase_head-ok h l (record l { tail = last_or null (xs ++ ys) }) xs n ys is refl,
        )
        (Returns.then (unlink-Seg h xs n ys is.chain is.distinct) λ _ g (seg, cleaned, same).
          returns (
            refl,
            record {
              view = IsList-drop h l xs n ys is g _ seg refl refl refl refl;
              cleaned = cleaned;
              same = same;
            },
          ))

-- The head or the tail that is left when the first or the last hook has gone.
null_if_eq : (t e : Ptr) → t ≡ e → (if t == e then null else t) ≡ null
null_if_eq t e same = ground arith

keep_if_ne : (t e : Ptr) → (e == t) ≡ false → (if t == e then null else t) ≡ t
keep_if_ne t e other = ground arith

left-tail :
    (h : Heap) (l : SafeList) (n : Ptr) (ys : List Ptr)
    → IsList h l (n ∷ ys)
    → (if l.tail == n then null else l.tail) ≡ last_or null ys
left-tail h l n [] is = null_if_eq l.tail n is.tail
left-tail h l n (y ∷ ys) is =
    keep_if_ne l.tail n (rw is.tail (not_last h l [] n (y ∷ ys) is y ys refl)) ∙ is.tail

left-head :
    (h : Heap) (l : SafeList) (xs : List Ptr) (n : Ptr)
    → IsList h l (xs ++ n ∷ [])
    → (if l.head == n then null else l.head) ≡ first_or null xs
left-head h l [] n is = null_if_eq l.head n is.head
left-head h l (x ∷ xs) n is =
    keep_if_ne l.head n (rw is.head (not_first h l (x ∷ xs) n [] is x xs refl)) ∙ is.head

-- What `pop_front` and `pop_back` return when they return the hook `n`.
abbrev pub Took : Heap → List Ptr → Ptr → List Ptr → Popped × SafeList → Heap → Type 0
Took h xs n ys (r, l) g = (r ≡ popped n) × Shrunk h xs n ys l g

module _ (h : Heap) (l : SafeList) (thread timeout : ℕ) (expired : Bool) where
  -- `pop_front` on a well-formed list of `n ∷ ys` returns `n` without waiting, whatever the
  -- timeout: the list is a well-formed one of `ys`, the hook is clean, and no hook outside the old
  -- list was written.
  pub pop_front-first :
      (n : Ptr) (ys : List Ptr)
      → IsList h l (n ∷ ys)
      → Returns (Took h [] n ys) (pop_front thread timeout expired l h)
  unfolding pop_front
  pop_front-first n ys is =
      rw (full h l [] n ys is, is.head, load-ok (At-n h l [] n ys is))
        (Returns.then (unlink-Seg h [] n ys is.chain is.distinct) λ _ g (seg, cleaned, same).
          returns (
            refl,
            record {
              view =
                  IsList-drop h l [] n ys is g _ seg refl (left-tail h l n ys is) refl
                    (is.awake refl);
              cleaned = cleaned;
              same = same;
            },
          ))

  -- `pop_back` on a well-formed list of `xs ++ n ∷ []` returns `n` without waiting, whatever the
  -- timeout: the list is a well-formed one of `xs`, the hook is clean, and no hook outside the old
  -- list was written.
  pub pop_back-last :
      (xs : List Ptr) (n : Ptr)
      → IsList h l (xs ++ n ∷ [])
      → Returns (Took h xs n []) (pop_back thread timeout expired l h)
  unfolding pop_back
  pop_back-last xs n is =
      rw (full h l xs n [] is, tail_n h l xs n [] is, load-ok (At-n h l xs n [] is))
        (Returns.then (unlink-Seg h xs n [] is.chain is.distinct) λ _ g (seg, cleaned, same).
          returns (
            refl,
            record {
              view =
                  IsList-drop h l xs n [] is g _ seg (rw append-nil (left-head h l xs n is))
                    (rw append-nil) refl (is.awake (is_nil-append_cons xs n []));
              cleaned = cleaned;
              same = same;
            },
          ))

  -- On a well-formed empty list `pop_front` and `pop_back` put their thread to sleep on the
  -- condition variable, and change nothing else, if there is no timeout or it has not expired.
  pub pop-waits :
      IsList h l []
      → (timeout ≡ 0) ⊎ (expired ≡ false)
      → (pop_front thread timeout expired l h
          ≡ ok (blocked, record l { asleep = thread ∷ l.asleep }) h)
        × (pop_back thread timeout expired l h
            ≡ ok (blocked, record l { asleep = thread ∷ l.asleep }) h)
  unfolding pop_front pop_back
  pop-waits is c = ground (arith, is_empty-is_nil h l [] is)

  -- After the timeout they return `nullptr`, and change nothing.
  pub pop-expires :
      IsList h l []
      → timeout ≢ 0
      → expired ≡ true
      → (pop_front thread timeout expired l h ≡ ok (popped null, l) h)
        × (pop_back thread timeout expired l h ≡ ok (popped null, l) h)
  unfolding pop_front pop_back
  pop-expires is c e = ground (arith, is_empty-is_nil h l [] is)

-- ===== src/SafeList/Push.antt =====
-- `push_back`, `insert` and `push_front` of include/safe_list.hpp.
use fredlib.Base.{
  ◌+◌, ◌%◌, ◌≡◌, refl, ap, Bool, true, false, some, List, [], ◌∷◌, ◌++◌, arith, has, Distinct,
  first_or, last_or, length, length-append, last_or-append_cons, has-append,
}
use mathlib.Core.List.{append_assoc, append-nil}
use mathlib.Core.Path.{◌∙◌, sym, subst}
use fredlib.SafeList.Heap.{Ptr, null, clean, ListHook, Heap}
use fredlib.SafeList.Ops.{SafeList, u32_mod, is_empty, push_back}
use fredlib.SafeList.Returns
use fredlib.SafeList.Returns.{Returns, returns}
use fredlib.SafeList.Chain.{Seg, SameOutside, At, not_null}
use fredlib.SafeList.Links.{link_after-Seg}
use fredlib.SafeList.View.{IsList, is_nil, is_empty-is_nil, snoc_view}

-- The list has grown to `zs`, and nothing was written at any other hook.
abbrev pub Grown : Heap → List Ptr → Bool × SafeList → Heap → Type 0
Grown h zs (done, l) g = (done ≡ true) × IsList g l zs × SameOutside zs h g

-- A sequence stays free of repetitions when a new hook is put in.
pub Distinct-put :
    (xs : List Ptr) (n : Ptr) (ys : List Ptr)
    → Distinct (xs ++ ys)
    → has n (xs ++ ys) ≡ false
    → Distinct (xs ++ n ∷ ys)
Distinct-put [] n ys d new = (new, d)
Distinct-put (x ∷ xs) n ys d new = (
  ground (arith, has-append x xs ys, has-append x xs (n ∷ ys)),
  Distinct-put xs n ys d.1 (ground arith),
)

pub length-put :
    (xs : List Ptr) (n : Ptr) (ys : List Ptr) → length (xs ++ n ∷ ys) ≡ length (xs ++ ys) + 1
length-put xs n ys = omega (arith, length-append xs (n ∷ ys), length-append xs ys)

pub is_nil-append_cons : (xs : List Ptr) (y : Ptr) (ys : List Ptr) → is_nil (xs ++ y ∷ ys) ≡ false
is_nil-append_cons [] y ys = refl
is_nil-append_cons (x ∷ xs) y ys = refl

first_or-front :
    (xs : List Ptr) (y : Ptr) (ys zs : List Ptr)
    → first_or null (xs ++ y ∷ ys) ≡ first_or null (xs ++ y ∷ zs)
first_or-front [] y ys zs = refl
first_or-front (x ∷ xs) y ys zs = refl

module _ (h : Heap) (l : SafeList) (new : Ptr) (old : ListHook) (at : At h new old) where
  -- The list after a hook has been linked in between `xs` and `ys`.
  pub IsList-put :
      (g : Heap) (l' : SafeList) (xs ys : List Ptr)
      → IsList h l (xs ++ ys)
      → has new (xs ++ ys) ≡ false
      → Seg g null (xs ++ new ∷ ys) null
      → l'.head ≡ first_or null (xs ++ new ∷ ys)
      → l'.tail ≡ last_or new ys
      → l'.size ≡ (l.size + 1) % u32_mod
      → l'.asleep ≡ []
      → IsList g l' (xs ++ new ∷ ys)
  IsList-put g l' xs ys is fresh seg e f s w = record {
    chain = seg;
    distinct = Distinct-put xs new ys is.distinct fresh;
    head = e;
    tail = f ∙ sym (last_or-append_cons null xs new ys);
    size = omega (arith, is.size, length-put xs new ys);
    awake = λ _. w;
  }

  -- A clean hook is a list of one.
  pub one-Seg : old ≡ clean → Seg h null (new ∷ []) null
  one-Seg e = (at.live, at.holds ∙ ap some e, tt)

  -- `push_back` behind a last element `e`.
  pub push_back-last :
      (front : List Ptr) (e : Ptr)
      → IsList h l (front ++ e ∷ [])
      → has new (front ++ e ∷ []) ≡ false
      → Returns (Grown h (front ++ e ∷ new ∷ [])) (push_back new l h)
  unfolding push_back
  push_back-last front e is fresh =
      let assoc = append_assoc front (e ∷ []) (new ∷ []) in
      let tail : l.tail ≡ e = is.tail ∙ last_or-append_cons null front e [] in
      let full : is_empty l ≡ false = is_empty-is_nil h l _ is ∙ is_nil-append_cons front e [] in
      rw (not_null at, full, tail)
        (Returns.then_then _ _ (link_after-Seg h new old at front e [] is.chain is.distinct fresh)
          λ _ g (seg, out). returns (
            refl,
            rw (← assoc) (
                IsList-put g _ (front ++ e ∷ []) [] (rw append-nil is) (rw append-nil fresh)
                  (rw assoc seg) (is.head ∙ first_or-front front e [] (new ∷ []) ∙ rw assoc) refl
                  refl refl),
            out,
          ))

  -- `push_back` of a live hook `new` on a well-formed list of `xs` that does not hold `new`
  -- succeeds, provided that the hook is clean if the list is empty: the list is a well-formed one
  -- of `xs ++ new ∷ []`, and no hook outside it was written.
  pub push_back-snoc :
      (xs : List Ptr)
      → IsList h l xs
      → has new xs ≡ false
      → (is_nil xs ≡ true → old ≡ clean)
      → Returns (Grown h (xs ++ new ∷ [])) (push_back new l h)
  unfolding push_back
  push_back-snoc [] is fresh ready =
      rw (not_null at, is_empty-is_nil h l [] is)
        (returns (
          refl,
          IsList-put h _ [] [] is fresh (one-Seg (ready refl)) refl refl refl refl,
          λ p o. refl,
        ))
  push_back-snoc (x ∷ xs) is fresh ready =
      let (front, e) = snoc_view x xs in
      let assoc = append_assoc front (last_or x xs ∷ []) (new ∷ []) in
      subst (λ zs. Returns (Grown h (zs ++ new ∷ [])) (push_back new l h)) (sym e)
        (rw assoc (
          push_back-last front (last_or x xs) (subst (IsList h l) e is)
            (subst (λ zs. has new zs ≡ false) e fresh)))

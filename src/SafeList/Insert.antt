-- ===== src/SafeList/Insert.antt =====
-- `insert` and `push_front` of include/safe_list.hpp.
use fredlib.Base.{
  Bool-cases, ◌≡◌, refl, ◌≢◌, ap, true, false, inl, inr, List, [], ◌∷◌, ◌++◌, arith, ◌==◌, has,
  Distinct, first_or, has-append, if◌then◌else◌, last_or-append_cons,
}
use mathlib.Core.Path.{◌∙◌, sym, subst}
use fredlib.SafeList.Heap.{Ptr, null, clean, ListHook, Heap, ok}
use fredlib.SafeList.Ops.{SafeList, is_empty, insert, push_front}
use fredlib.SafeList.Returns
use fredlib.SafeList.Returns.{Returns, returns}
use fredlib.SafeList.Chain.{At, not_null, At-first, Seg-split}
use fredlib.SafeList.Links.{link_before-Seg}
use fredlib.SafeList.View.{IsList, is_nil, is_empty-is_nil}
use fredlib.SafeList.Push.{Grown, IsList-put, one-Seg, is_nil-append_cons}

-- The three calls that `insert` refuses.
pub data Refused (existing new : Ptr) (xs : List Ptr) : Type 0 where
  no_node : new ≡ null → Refused existing new xs
  not_in_list : is_nil xs ≡ true → existing ≢ null → Refused existing new xs
  no_place : is_nil xs ≡ false → existing ≡ null → Refused existing new xs

-- The head after a hook has been put in front of `e`.
head-put :
    (xs : List Ptr) (new e : Ptr) (ys : List Ptr)
    → Distinct (xs ++ e ∷ ys)
    → (if first_or null (xs ++ e ∷ ys) == e then new else first_or null (xs ++ e ∷ ys))
      ≡ first_or null (xs ++ new ∷ e ∷ ys)
head-put [] new e ys d = ground arith
head-put (x ∷ xs) new e ys d = ground (arith, has-append x xs (e ∷ ys))

module _ (h : Heap) (l : SafeList) (existing new : Ptr) where
  -- `insert` returns false and changes neither the list nor a hook if the new hook is null, if the
  -- well-formed list is empty but a position is given, or if it is not empty and no position is
  -- given.
  pub insert-Refused :
      (xs : List Ptr)
      → IsList h l xs
      → Refused existing new xs
      → insert existing new l h ≡ ok (false, l) h
  unfolding insert
  insert-Refused xs is (no_node e) = ground (arith, is_empty-is_nil h l xs is)
  insert-Refused xs is (not_in_list e ne) = ground (arith, is_empty-is_nil h l xs is)
  insert-Refused xs is (no_place e n) = ground (arith, is_empty-is_nil h l xs is)

module _ (h : Heap) (l : SafeList) (new : Ptr) (old : ListHook) (at : At h new old) where
  pub insert-first :
      IsList h l [] → old ≡ clean → Returns (Grown h (new ∷ [])) (insert null new l h)
  unfolding insert
  insert-first is fresh =
      rw (not_null at, is_empty-is_nil h l [] is)
        (returns (
          refl,
          IsList-put h l new old at h _ [] [] is refl (one-Seg h l new old at fresh) refl refl refl
              refl,
          λ p o. refl,
        ))

  -- `insert` of a live hook `new` before the hook `e` of a well-formed list of `xs ++ e ∷ ys` that
  -- does not hold `new` succeeds: the list is a well-formed one of `xs ++ new ∷ e ∷ ys`, and no
  -- hook outside it was written.
  pub insert-before :
      (xs : List Ptr) (e : Ptr) (ys : List Ptr)
      → IsList h l (xs ++ e ∷ ys)
      → has new (xs ++ e ∷ ys) ≡ false
      → Returns (Grown h (xs ++ new ∷ e ∷ ys)) (insert e new l h)
  unfolding insert
  insert-before xs e ys is fresh =
      let full : is_empty l ≡ false = is_empty-is_nil h l _ is ∙ is_nil-append_cons xs e ys in
      let at_e = At-first h _ e ys null (Seg-split h null xs (e ∷ ys) null is.chain).1 in
      rw (not_null at, full, not_null at_e)
        (Returns.then_then _ _ (link_before-Seg h new old at xs e ys is.chain is.distinct fresh)
          λ _ g (seg, out).
            let tail = is.tail ∙ last_or-append_cons null xs e ys in
            let head =
              ap (λ p. if p == e then new else p) is.head ∙ head-put xs new e ys is.distinct in
            elim (Bool-cases (l.head == e)) [
              | inl hit ↦ rw hit (
                  returns (
                    refl,
                    IsList-put h l new old at g _ xs (e ∷ ys) is fresh seg (rw hit at head) tail
                        refl refl,
                    out,
                  ))
              | inr miss ↦ rw miss (
                  returns (
                    refl,
                    IsList-put h l new old at g _ xs (e ∷ ys) is fresh seg (rw miss at head) tail
                        refl refl,
                    out,
                  ))
            ])

  -- `push_front`, when the head that it read is still the head, puts a live hook `new` in front of
  -- a well-formed list of `xs` that does not hold `new`, provided that the hook is clean if the
  -- list is empty: it succeeds, the list is a well-formed one of `new ∷ xs`, and no hook outside
  -- it was written.
  pub push_front-cons :
      (xs : List Ptr)
      → IsList h l xs
      → has new xs ≡ false
      → (is_nil xs ≡ true → old ≡ clean)
      → Returns (Grown h (new ∷ xs)) (push_front l.head new l h)
  unfolding push_front
  push_front-cons [] is fresh ready =
      subst (λ p. Returns (Grown h (new ∷ [])) (insert p new l h)) (sym is.head)
        (insert-first is (ready refl))
  push_front-cons (x ∷ xs) is fresh ready =
      subst (λ p. Returns (Grown h (new ∷ x ∷ xs)) (insert p new l h)) (sym is.head)
        (insert-before [] x xs is fresh)

-- ===== src/SafeList/Links.antt =====
-- What `relink`, `link_after`, `link_before` and `unlink` do to a segment.
use fredlib.Base.{
  ◌≡◌, ◌≢◌, true, false, some, List, [], ◌∷◌, ◌++◌, arith, has, Distinct, first_or, last_or,
  has-append, ◌∙◌, last_or-append_cons,
}
use mathlib.Core.List.{append_assoc}
use fredlib.SafeList.Heap.{◌>>◌, Ptr, null, ListHook, hook, clean, Heap, write, set_prev, set_next}
use fredlib.SafeList.Hook.{unlink, relink, link_after, link_before}
use fredlib.SafeList.Returns
use fredlib.SafeList.Returns.{Returns, returns}
use fredlib.SafeList.Chain.{
  Seg, SameOutside, Seg-same, Seg-append, Seg-split, At, load-ok, set_prev-ok, set_next-ok,
  At-write, At-write_ne, when_set-next, when_set-prev, At-first,
}

-- Two lists that share no hook.
abbrev pub Apart : List Ptr → List Ptr → Type 0
Apart xs ys = (p : Ptr) → has p xs ≡ true → has p ys ≡ false

pub Distinct-split :
    (xs ys : List Ptr) → Distinct (xs ++ ys) → Distinct xs × Distinct ys × Apart xs ys
Distinct-split [] ys d = (tt, d, λ p i. absurd (cc))
Distinct-split (x ∷ xs) ys d =
    let (dx, dy, apart) = Distinct-split xs ys d.1 in
    (
      (ground (arith, has-append x xs ys), dx),
      dy,
      λ p i. ground (arith, apart p, has-append x xs ys),
    )

pub Distinct-join :
    (xs ys : List Ptr) → Distinct xs → Distinct ys → Apart xs ys → Distinct (xs ++ ys)
Distinct-join [] ys dx dy apart = dy
Distinct-join (x ∷ xs) ys dx dy apart = (
  ground (arith, has-append x xs ys, apart x),
  Distinct-join xs ys dx.1 dy (λ p i. ground (arith, apart p)),
)

-- The outcome of a command that leaves the hooks `zs` linked and writes only at `ws`.
abbrev pub Linked : Heap → (zs ws : List Ptr) → Unit {0} → Heap → Type 0
Linked h zs ws _ g = Seg g null zs null × SameOutside ws h g

-- A new hook that points at the end of `xs` and at the start of `ys` is linked in between.
relink-Seg :
    (h : Heap) (xs ys : List Ptr) (n a b : Ptr)
    → At h n (hook (last_or null xs) (first_or null ys))
    → Seg h null xs a
    → Seg h b ys null
    → Distinct xs
    → Distinct ys
    → Apart xs ys
    → has n xs ≡ false
    → has n ys ≡ false
    → Returns (Linked h (xs ++ n ∷ ys) (xs ++ n ∷ ys)) (relink n h)
unfolding relink
relink-Seg h xs ys n a b at sx sy dx dy apart nx ny = rw (load-ok at) (
    Returns.then (when_set-next h xs a n sx dx) λ _ g (seg, same).
      let at' : At g n (hook (last_or null xs) (first_or null ys)) = ground (arith, same n) in
      let back : Seg g b ys null =
        Seg-same h b ys null sy (λ p i. ground (arith, same p, apart p)) in
      rw (load-ok at') (
        Returns.weaken (when_set-prev g b n ys back dy) λ _ k (seg', same'). (
          Seg-append k null xs (n ∷ ys) null (Seg-same g null xs n seg (λ p i. same' p (apart p i)))
              (at.live, ground (arith, same' n), seg'),
          λ p o. ground (arith, has-append p xs (n ∷ ys), same p, same' p),
        )))

-- A hook that is in no list may hold anything: the links that `link_before` and `link_after` find
-- in it are overwritten.
module _ (h : Heap) (n : Ptr) (old : ListHook) (at : At h n old) where
  -- The heap with the new hook's members set.
  pub pointed : Ptr → Ptr → Heap
  pointed p q = write (write h n (record old { prev = p })) n (hook p q)

  pub pointed-same : (p q r : Ptr) → r ≢ n → pointed p q r ≡ h r
  unfolding pointed write
  pointed-same p q r ne = ground arith

  At-pointed : (p q : Ptr) → At (pointed p q) n (hook p q)
  unfolding pointed
  At-pointed p q = At-write (At-write at (record old { prev = p })) (hook p q)

  module _ (xs ys : List Ptr) (s : Seg h null (xs ++ ys) null) (d : Distinct (xs ++ ys))
      (new : has n (xs ++ ys) ≡ false) where
    -- Linking in a hook that points at the end of `xs` and at the start of `ys`.
    relink-pointed :
        Returns
          (Linked h (xs ++ n ∷ ys) (xs ++ n ∷ ys))
          (relink n (pointed (last_or null xs) (first_or null ys)))
    relink-pointed =
        let (sx, sy) = Seg-split h null xs ys null s in
        let (dx, dy, apart) = Distinct-split xs ys d in
        let p = last_or null xs in
        let q = first_or null ys in
        Returns.weaken
          (relink-Seg (pointed p q) xs ys n (first_or null ys) (last_or null xs) (At-pointed p q)
            (Seg-same h null xs _ sx
              (λ r i. pointed-same p q r (ground (arith, has-append n xs ys))))
            (Seg-same h (last_or null xs) ys null sy
              (λ r i. pointed-same p q r (ground (arith, has-append n xs ys))))
            dx dy apart (ground (arith, has-append n xs ys)) (ground (arith, has-append n xs ys)))
          λ _ g (seg, same).
            (seg, λ r o. same r o ∙ pointed-same p q r (ground (arith, has-append r xs (n ∷ ys))))

  -- `link_before` puts the hook in front of `e`.
  pub link_before-Seg :
      (xs : List Ptr) (e : Ptr) (ys : List Ptr)
      → Seg h null (xs ++ e ∷ ys) null
      → Distinct (xs ++ e ∷ ys)
      → has n (xs ++ e ∷ ys) ≡ false
      → Returns (Linked h (xs ++ n ∷ e ∷ ys) (xs ++ n ∷ e ∷ ys)) (link_before n e h)
  unfolding link_before pointed
  link_before-Seg xs e ys s d new =
      let at_e = At-first h _ e ys null (Seg-split h null xs (e ∷ ys) null s).1 in
      rw (load-ok at_e, set_prev-ok at _, set_next-ok (At-write at _) _)
        (relink-pointed xs (e ∷ ys) s d new)

  -- `link_after` puts the hook behind `e`.
  pub link_after-Seg :
      (xs : List Ptr) (e : Ptr) (ys : List Ptr)
      → Seg h null (xs ++ e ∷ ys) null
      → Distinct (xs ++ e ∷ ys)
      → has n (xs ++ e ∷ ys) ≡ false
      → Returns (Linked h (xs ++ e ∷ n ∷ ys) (xs ++ e ∷ n ∷ ys)) (link_after n e h)
  unfolding link_after pointed
  link_after-Seg xs e ys s d new =
      let at_e = At-first h _ e ys null (Seg-split h null xs (e ∷ ys) null s).1 in
      let ne : n ≢ e = ground (arith, has-append n xs (e ∷ ys)) in
      let front = append_assoc xs (e ∷ []) ys in
      let linked = relink-pointed (xs ++ e ∷ []) ys (rw front s) (rw front d) (rw front new) in
      rw
        (
          set_prev-ok at _,
          load-ok (At-write_ne at_e n (record old { prev = e }) ne),
          set_next-ok (At-write at (record old { prev = e })) _,
        )
        (rw (append_assoc xs (e ∷ []) (n ∷ ys), last_or-append_cons null xs e []) at linked)

-- The end of `unlink`: the hook that has been taken out is cleaned.
unlink_clean :
    (h : Heap) (n p q : Ptr) (xs ys : List Ptr)
    → At h n (hook p q)
    → Seg h null xs (first_or null ys)
    → Seg h (last_or null xs) ys null
    → has n xs ≡ false
    → has n ys ≡ false
    → Returns
        (λ _ g. Seg g null (xs ++ ys) null × (g n ≡ some clean) × SameOutside (n ∷ []) h g)
        ((set_prev n null >> set_next n null) h)
unfolding write
unlink_clean h n p q xs ys at sx sy nx ny =
    rw (set_prev-ok at null, set_next-ok (At-write at (hook null q)) null)
      (returns (
        Seg-append _ null xs ys null (Seg-same h null xs _ sx (λ r i. ground arith))
            (Seg-same h (last_or null xs) ys null sy (λ r i. ground arith)),
        ground arith,
        λ r o. ground arith,
      ))

-- `unlink` takes a hook out, and leaves it clean.
pub unlink-Seg :
    (h : Heap) (xs : List Ptr) (n : Ptr) (ys : List Ptr)
    → Seg h null (xs ++ n ∷ ys) null
    → Distinct (xs ++ n ∷ ys)
    → Returns
        (λ _ g. Seg g null (xs ++ ys) null × (g n ≡ some clean) × SameOutside (xs ++ n ∷ ys) h g)
        (unlink n h)
unfolding unlink
unlink-Seg h xs n ys s d =
    let (sx, sn) = Seg-split h null xs (n ∷ ys) null s in
    let (dx, dn, apart) = Distinct-split xs (n ∷ ys) d in
    let p = last_or null xs in
    let q = first_or null ys in
    let at : At h n (hook p q) = At-first h _ n ys null sn in
    let nx : has n xs ≡ false = ground (arith, has-append n xs (n ∷ ys), apart n) in
    rw (load-ok at) (
      Returns.then (when_set-next h xs n q sx dx) λ _ g (seg, same).
        let at' : At g n (hook p q) = record { live = at.live; holds = same n nx ∙ at.holds } in
        let back : Seg g n ys null =
          Seg-same h {g = g} n ys null sn.2 (λ r i. ground (arith, same r, apart r)) in
        rw (load-ok at') (
          Returns.then (when_set-prev g n p ys back dn.1) λ _ k (seg', same').
            let at'' : At k n (hook p q) = record {
              live = at.live;
              holds = same' n dn.0 ∙ at'.holds;
            } in
            let front : Seg k null xs q =
              Seg-same g {g = k} null xs q seg (λ r i. ground (arith, same' r, apart r)) in
            Returns.weaken (unlink_clean k n p q xs ys at'' front seg' nx dn.0)
              λ _ m (whole, cleaned, same''). (
                whole,
                cleaned,
                λ r o. ground (arith, has-append r xs (n ∷ ys), same r, same' r, same'' r),
              )))

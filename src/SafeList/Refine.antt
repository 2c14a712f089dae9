-- ===== src/SafeList/Refine.antt =====
-- The members of include/safe_list.hpp's `SafeList` refine the calls on a sequence.
use fredlib.Base.{
  Bool-cases, ==_iff, ◌≡◌, refl, ◌⊎◌, inl, inr, ap, true, false, List, [], ◌∷◌, ◌++◌, arith, ◌==◌,
  has, has-append,
}
use mathlib.Core.Bool.{false≢true}
use mathlib.Core.Path.{◌∙◌, sym, subst}
use fredlib.SafeList.Heap.{Ptr, null, Heap, ok}
use fredlib.SafeList.Ops.{SafeList, insert, erase, push_back, push_front}
use fredlib.SafeList.Returns
use fredlib.SafeList.Returns.{Returns, returns}
use fredlib.SafeList.Chain.{not_null}
use fredlib.SafeList.View.{IsList, is_nil}
use fredlib.SafeList.Push.{push_back-snoc}
use fredlib.SafeList.Insert.{
  insert-before, insert-first, push_front-cons, insert-Refused, no_node, not_in_list, no_place,
}
use fredlib.SafeList.Remove.{erase_lem}
use fredlib.SafeList.World.{World, World-grown, World-Shrunk, split_at, has-put, Seg-live}
use fredlib.SafeList.Deque.{
  Call, inserts, erases, pushes_back, pushes_front, Reply, done, exec, spec, Fresh, Allowed,
}

push_back-null : (h : Heap) (l : SafeList) → push_back null l h ≡ ok (false, l) h
unfolding push_back
push_back-null h l = refl

erase-null : (h : Heap) (l : SafeList) → erase null l h ≡ ok (false, l) h
unfolding erase
erase-null h l = refl

push_front-null :
    (h : Heap) (l : SafeList) (front : Ptr) → push_front front null l h ≡ ok (false, l) h
unfolding push_front insert
push_front-null h l front = refl

-- The outcome that the sequence prescribes.
abbrev pub Refines : (pool : List Ptr) → Call → List Ptr → Reply × SafeList → Heap → Type 0
Refines pool c xs (r, l) g = (r ≡ (spec c xs).0) × World pool g l (spec c xs).1

Fresh-pool :
    (pool xs : List Ptr) (new : Ptr)
    → Fresh pool xs new
    → (new == null) ≡ false
    → has new pool ≡ true
Fresh-pool pool xs new (inl e) live = ground arith
Fresh-pool pool xs new (inr (i, f)) live = i

Fresh-out :
    (pool xs : List Ptr) (new : Ptr)
    → Fresh pool xs new
    → (new == null) ≡ false
    → has new xs ≡ false
Fresh-out pool xs new (inl e) live = ground arith
Fresh-out pool xs new (inr (i, f)) live = f

module _ (pool : List Ptr) (h : Heap) (l : SafeList) (xs : List Ptr) (w : World pool h l xs) where
  not_zero : (p : Ptr) → has p pool ≡ true → (p == null) ≡ false
  not_zero p i = let live = (w.alive p i).1.live in ground arith

  has-snoc : (new p : Ptr) → has p (xs ++ new ∷ []) ≡ false → has p xs ≡ false
  has-snoc new p o = ground (arith, has-append p xs (new ∷ []))

  pub pushes_back-Refines :
      (new : Ptr)
      → Fresh pool xs new
      → Returns (Refines pool (pushes_back new) xs) (exec (pushes_back new) l h)
  unfolding exec spec
  pushes_back-Refines new (inl e) = rw (e, push_back-null h l) (returns (refl, w))
  pushes_back-Refines new (inr (i, f)) =
      let (n, at) = w.alive new i in
      (Returns.then (push_back-snoc h l new n at xs w.view f (λ _. w.rest new n at.holds f))
        λ _ g (e, view, same). returns (
          rw (not_zero new i)
            (ap done e, World-grown pool h l xs w (xs ++ new ∷ []) g _ view same (has-snoc new))))

  pub pushes_front-Refines :
      (new : Ptr)
      → Fresh pool xs new
      → Returns (Refines pool (pushes_front new) xs) (exec (pushes_front new) l h)
  unfolding exec spec
  pushes_front-Refines new (inl e) = rw (e, push_front-null h l l.head) (returns (refl, w))
  pushes_front-Refines new (inr (i, f)) =
      let (n, at) = w.alive new i in
      (Returns.then (push_front-cons h l new n at xs w.view f (λ _. w.rest new n at.holds f))
        λ _ g (e, view, same). returns (
          rw (not_zero new i)
            (ap done e, World-grown pool h l xs w (new ∷ xs) g _ view same (λ p o. ground arith))))

  pub erases-Refines :
      (node : Ptr)
      → Allowed pool xs (erases node)
      → Returns (Refines pool (erases node) xs) (exec (erases node) l h)
  unfolding exec spec
  erases-Refines node (inl e) = rw (e, erase-null h l) (returns (refl, w))
  erases-Refines node (inr i) =
      let (front, back, split, gone, _) = split_at node null xs i in
      let is = subst (IsList h l) split w.view in
      let live = not_null (Seg-live h null xs null node w.view.chain i).1 in
      (Returns.then (erase_lem h l front node back is) λ _ g (e, s).
        returns
          (rw (live, gone) (ap done e, World-Shrunk pool h l xs w front node back g _ split s)))

position :
    (existing x : Ptr) (xs : List Ptr)
    → (existing == null) ≡ false
    → (existing ≡ null) ⊎ ((has existing (x ∷ xs) ≡ true) ⊎ (is_nil (x ∷ xs) ≡ true))
    → has existing (x ∷ xs) ≡ true
position existing x xs set (inl e) = ground arith
position existing x xs set (inr (inl i)) = i
position existing x xs set (inr (inr e)) = absurd (false≢true e)

without :
    (p : Ptr) (front : List Ptr) (new e : Ptr) (back : List Ptr)
    → has p (front ++ new ∷ e ∷ back) ≡ false
    → has p (front ++ e ∷ back) ≡ false
without p front new e back o = ground (arith, has-put p front new (e ∷ back))

-- The calls whose specification looks at the sequence.
pub inserts-Refines :
    (pool : List Ptr) (h : Heap) (l : SafeList) (xs : List Ptr) (existing new : Ptr)
    → World pool h l xs
    → Allowed pool xs (inserts existing new)
    → Returns (Refines pool (inserts existing new) xs) (exec (inserts existing new) l h)
unfolding exec spec
inserts-Refines pool h l [] existing new w (f, place) = elim (Bool-cases (new == null)) [
  | inl zero_new ↦
      rw (insert-Refused h l existing new [] w.view (no_node ((==_iff new null).0 zero_new)))
        (returns (rw zero_new (refl, w)))
  | inr live ↦ elim (Bool-cases (existing == null)) [
    | inl start ↦
        let (n, at) = w.alive new (Fresh-pool pool [] new f live) in
        let is_null : existing ≡ null = (==_iff existing null).0 start in
        rw is_null (
          Returns.then (insert-first h l new n at w.view (w.rest new n at.holds refl))
            λ _ g (e, view, same). returns (
              rw live
                (ap done e, World-grown pool h l [] w (new ∷ []) g _ view same (λ p o. refl))))
    | inr set ↦
        rw
          (insert-Refused h l existing new [] w.view
            (not_in_list refl (λ e. false≢true (sym set ∙ (==_iff existing null).1 e))))
          (returns (rw (live, set) (refl, w)))
  ]
]
inserts-Refines pool h l (x ∷ xs) existing new w (f, place) = elim (Bool-cases (new == null)) [
  | inl zero_new ↦
      rw (insert-Refused h l existing new (x ∷ xs) w.view (no_node ((==_iff new null).0 zero_new)))
        (returns (rw zero_new (refl, w)))
  | inr live ↦ elim (Bool-cases (existing == null)) [
    | inl start ↦
        rw
          (insert-Refused h l existing new (x ∷ xs) w.view
            (no_place refl ((==_iff existing null).0 start)))
          (returns (rw (live, start) (refl, w)))
    | inr set ↦
        let (n, at) = w.alive new (Fresh-pool pool (x ∷ xs) new f live) in
        let fresh = Fresh-out pool (x ∷ xs) new f live in
        let (front, back, split, _, put) =
          split_at existing new (x ∷ xs) (position existing x xs set place) in
        Returns.then
          (insert-before h l new n at front existing back (subst (IsList h l) split w.view)
            (subst (λ zs. has new zs ≡ false) split fresh))
          λ _ g (e, view, same). returns (
            rw (live, set)
              (
                ap done e,
                rw put (
                    World-grown pool h l (x ∷ xs) w (front ++ new ∷ existing ∷ back) g _ view same
                      (λ p o.
                        subst (λ zs. has p zs ≡ false) (sym split)
                          (without p front new existing back o))),
              ))
  ]
]

-- ===== src/SafeList/World.antt =====
-- A pool of hooks, of which some are linked in one `SafeList` of include/safe_list.hpp.
use fredlib.Base.{
  Bool-cases, ==_iff, Option, ◌≡◌, inl, inr, ap, true, false, ◌||◌, some, List, [], ◌∷◌, ◌++◌,
  arith, ◌==◌, has, first_or, has-append,
}
use mathlib.Core.Path.{◌∙◌, sym}
use fredlib.SafeList.Heap.{Ptr, null, clean, ListHook, hook, Heap}
use fredlib.SafeList.Ops.{SafeList}
use fredlib.SafeList.Chain.{Seg, SameOutside, At}
use fredlib.SafeList.View.{IsList, RestClean}
use fredlib.SafeList.Remove.{Shrunk}
use fredlib.SafeList.Deque.{put_before, remove}

-- The hooks of `pool` are alive; those of `xs` are linked in the list, and the others are clean.
pub record World (pool : List Ptr) (h : Heap) (l : SafeList) (xs : List Ptr) : Type 0 where
  pub view : IsList h l xs
  pub rest : RestClean h xs
  pub alive : (p : Ptr) → has p pool ≡ true → (n : ListHook) × At h p n

-- A hook in a sequence splits it.
pub split_at :
    (e new : Ptr) (xs : List Ptr)
    → has e xs ≡ true
    → (front : List Ptr) × (back : List Ptr) × (xs ≡ front ++ e ∷ back)
      × (remove e xs ≡ front ++ back)
      × (put_before e new xs ≡ front ++ new ∷ e ∷ back)
unfolding remove put_before
split_at e new [] i = absurd (cc)
split_at e new (x ∷ xs) i = elim (Bool-cases (x == e)) [
  | inl hit ↦ ([], xs, ground arith, ground arith, ground arith)
  | inr miss ↦
      let (front, back, a, b, c) = split_at e new xs (ground arith) in
      (
        x ∷ front,
        back,
        ap {B = List Ptr} (λ r. x ∷ r) a,
        rw miss (ap {B = List Ptr} (λ r. x ∷ r) b),
        rw miss (ap {B = List Ptr} (λ r. x ∷ r) c),
      )
]

pub Seg-live :
    (h : Heap) (before : Ptr) (xs : List Ptr) (after p : Ptr)
    → Seg h before xs after
    → has p xs ≡ true
    → (n : ListHook) × At h p n
Seg-live h before [] after p s i = absurd (cc)
Seg-live h before (x ∷ xs) after p s i = elim (Bool-cases (p == x)) [
  | inl hit ↦ (
    hook before (first_or after xs),
    let e : p ≡ x = ground arith in rw e (record { live = s.0; holds = s.1 }),
  )
  | inr miss ↦ Seg-live h x xs after p s.2 (ground arith)
]

pub has-put :
    (p : Ptr) (front : List Ptr) (e : Ptr) (back : List Ptr)
    → has p (front ++ e ∷ back) ≡ ((p == e) || has p (front ++ back))
has-put p front e back = ground (arith, has-append p front (e ∷ back), has-append p front back)

some-clean : (m : Option ListHook) (n : ListHook) → m ≡ some clean → m ≡ some n → n ≡ clean
some-clean m n e f = cc

module _ (pool : List Ptr) (h : Heap) (l : SafeList) (xs : List Ptr) (w : World pool h l xs) where
  -- A call that only links hooks in keeps the rest of the world.
  pub World-grown :
      (zs : List Ptr) (g : Heap) (l' : SafeList)
      → IsList g l' zs
      → SameOutside zs h g
      → ((p : Ptr) → has p zs ≡ false → has p xs ≡ false)
      → World pool g l' zs
  World-grown zs g l' view same sub = record {
    view = view;
    rest = λ p n e o. w.rest p n (sym (same p o) ∙ e) (sub p o);
    alive = λ p i. elim (Bool-cases (has p zs)) [
      | inl is_in ↦ Seg-live g null zs null p view.chain is_in
      | inr out ↦
          let (n, at) = w.alive p i in (n, record { live = at.live; holds = same p out ∙ at.holds })
    ];
  }

  pub World-Shrunk :
      (front : List Ptr) (e : Ptr) (back : List Ptr) (g : Heap) (l' : SafeList)
      → xs ≡ front ++ e ∷ back
      → Shrunk h front e back l' g
      → World pool g l' (front ++ back)
  World-Shrunk front e back g l' split s = record {
    view = s.view;
    rest = λ p n at o. elim (Bool-cases (p == e)) [
      | inl hit ↦ some-clean (g p) n (ap g ((==_iff p e).0 hit) ∙ s.cleaned) at
      | inr miss ↦ let out = gone p miss o in w.rest p n (sym (s.same p out) ∙ at) (rw split out)
    ];
    alive = λ p i. elim (Bool-cases (p == e)) [
      | inl hit ↦ (
        clean,
        record { live = (w.alive p i).1.live; holds = ap g ((==_iff p e).0 hit) ∙ s.cleaned },
      )
      | inr miss ↦ elim (Bool-cases (has p (front ++ back))) [
        | inl is_in ↦ Seg-live g null (front ++ back) null p s.view.chain is_in
        | inr o ↦
            let (n, at) = w.alive p i in
            (n, record { live = at.live; holds = s.same p (gone p miss o) ∙ at.holds })
      ]
    ];
  }
    where
      gone :
          (p : Ptr)
          → (p == e) ≡ false
          → has p (front ++ back) ≡ false
          → has p (front ++ e ∷ back) ≡ false
      gone p miss o = rw (has-put p front e back, miss, o)

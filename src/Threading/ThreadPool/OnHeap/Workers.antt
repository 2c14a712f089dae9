-- ===== src/Threading/ThreadPool/OnHeap/Workers.antt =====
-- The workers of include/threading.hpp's `GenericThreadPool`, and the elements that they hold, as one of them
-- moves.
use mathlib.Core.Bool.{false≢true}
use fredlib.Base.{
  ℕ, ◌≡◌, ◌≢◌, refl, sym, ap, ◌∙◌, subst, true, false, List, ◌∷◌, ◌==◌, arith, Bool-cases, inl, inr,
  ==_iff,
}
use fredlib.SafeList.Heap.{Ptr}
use fredlib.Threading.Threads.{at_thread}
use fredlib.Threading.ThreadPool.{Place, top, working}
use fredlib.Threading.ThreadPool.Elements.{Elements}
use fredlib.Threading.ThreadPool.Elements.Owned.{Held}
use fredlib.Threading.ThreadPool.Elements.Pops.{Taken}
use fredlib.Threading.ThreadPool.Elements.Deletes.{Deleted}
use fredlib.Threading.ThreadPool.OnHeap.Shadow.{is_working, Alike, Kept}

passed :
    (place : ℕ → Place) (i : ℕ) (x : Place) (j : ℕ)
    → (j == i) ≡ false
    → at_thread i x place j ≡ place j
passed place i x j miss = rw miss refl

arrived :
    (place : ℕ → Place) (i : ℕ) (x : Place) (j : ℕ) → (j == i) ≡ true → at_thread i x place j ≡ x
arrived place i x j hit = rw hit refl

-- A worker that has an element after another one moved had it before.
stays :
    (place : ℕ → Place) (i : ℕ) (x : Place)
    → is_working x ≡ false
    → (j : ℕ) (obj : Ptr) → at_thread i x place j ≡ working obj
    → place j ≡ working obj
stays place i x free j obj at = elim (Bool-cases (j == i)) [
  | inl hit ↦ absurd (false≢true (sym free ∙ ap is_working (sym (arrived place i x j hit) ∙ at)))
  | inr miss ↦ sym (passed place i x j miss) ∙ at
]

-- It is not the worker that held no element.
standing :
    (place : ℕ → Place) (i : ℕ)
    → is_working (place i) ≡ false
    → (j : ℕ) (obj : Ptr) → place j ≡ working obj
    → (j == i) ≡ false
standing place i free j obj at = elim (Bool-cases (j == i)) [
  | inl hit ↦ absurd (
      false≢true
        (sym free ∙ ap (λ k. is_working (place k)) (sym ((==_iff j i).0 hit)) ∙ ap is_working at))
  | inr miss ↦ miss
]

working-injective : {a b : ℕ} → working a ≡ working b → a ≡ b
working-injective e = cc

module _ (offset : ℕ) (e : Elements) (q : List (Ptr × ℕ)) (place places : ℕ → Place)
    (alike : Alike offset e q place places) where
  idle_else :
      (i : ℕ) (x y : Place) (j : ℕ)
      → (j == i) ≡ false
      → is_working (at_thread i x place j) ≡ false
      → at_thread i y places j ≡ at_thread i x place j
  idle_else i x y j miss out =
      rw miss (alike.idle j (sym (ap is_working (passed place i x j miss)) ∙ out))

  -- A worker moves to a place where it holds no element.
  pub move-Alike :
      (i : ℕ) (x : Place)
      → is_working x ≡ false
      → Alike offset e q (at_thread i x place) (at_thread i x places)
  move-Alike i x free = record {
    idle = λ j out. elim (Bool-cases (j == i)) [
      | inl hit ↦ rw hit refl
      | inr miss ↦ idle_else i x x j miss out
    ];
    busy = λ j obj at. elim (Bool-cases (j == i)) [
      | inl hit ↦ absurd (false≢true (sym free ∙ ap is_working (sym (rw hit refl) ∙ at)))
      | inr miss ↦ rw miss (alike.busy j obj (sym (passed place i x j miss) ∙ at))
    ];
    apart = λ j k obj at at'.
        alike.apart j k obj (stays place i x free j obj at) (stays place i x free k obj at');
  }

pub move-Kept :
    (e : Elements) (q : List (Ptr × ℕ)) (place : ℕ → Place) (i : ℕ) (x : Place)
    → is_working (place i) ≡ false
    → Kept e q place
    → Kept e q (at_thread i x place)
move-Kept e q place i x free kept obj t meant = elim (kept obj t meant) [
  | inl queued ↦ inl queued
  | inr (j, at) ↦ inr (j, passed place i x j (standing place i free j obj at) ∙ at)
]

-- A worker deletes its element.
pub delete-Alike :
    (offset : ℕ) (e : Elements) (q : List (Ptr × ℕ)) (place places : ℕ → Place) (i : ℕ) (obj : Ptr)
    (e' : Elements)
    → Alike offset e q place places
    → place i ≡ working obj
    → Deleted offset e q obj e'
    → Alike offset e' q (at_thread i top place) (at_thread i top places)
delete-Alike offset e q place places i obj e' alike at deleted =
    let m = move-Alike offset e q place places alike i top refl in
    record {
      idle = m.idle;
      busy = λ j o at'.
          let (t, works, held) = m.busy j o at' in
          (t, works, deleted.others o t held (λ same. other j (at' ∙ ap working same)));
      apart = m.apart;
    }
  where
    other : (j : ℕ) → at_thread i top place j ≢ working obj
    other j at' =
        let same = alike.apart j i obj (stays place i top refl j obj at') at in
        false≢true (ap is_working (sym (arrived place i top j ((==_iff j i).1 same)) ∙ at'))

pub delete-Kept :
    (offset : ℕ) (e : Elements) (q : List (Ptr × ℕ)) (place : ℕ → Place) (i : ℕ) (obj : Ptr)
    (e' : Elements)
    → Kept e q place
    → place i ≡ working obj
    → Deleted offset e q obj e'
    → Kept e' q (at_thread i top place)
delete-Kept offset e q place i obj e' kept at deleted o t meant =
    let (differ, old) = deleted.fewer o t meant in
    elim (kept o t old) [
      | inl queued ↦ inl queued
      | inr (j, at') ↦ elim (Bool-cases (j == i)) [
        | inl hit ↦
            absurd (differ (working-injective (sym at' ∙ ap place ((==_iff j i).0 hit) ∙ at)))
        | inr miss ↦ inr (j, passed place i top j miss ∙ at')
      ]
    ]

-- A worker takes the first element.
module _ (offset : ℕ) (e : Elements) (obj : Ptr) (t : ℕ) (q : List (Ptr × ℕ))
    (place places : ℕ → Place) (i : ℕ) (e' : Elements)
    (alike : Alike offset e ((obj, t) ∷ q) place places) (pops : Taken offset e obj t q e') where
  pub take-Alike :
      Alike offset e' q (at_thread i (working obj) place) (at_thread i (working t) places)
  take-Alike = record {
    idle = λ j out. elim (Bool-cases (j == i)) [
      | inl hit ↦
          absurd (false≢true (sym out ∙ ap is_working (arrived place i (working obj) j hit)))
      | inr miss ↦
          idle_else offset e ((obj, t) ∷ q) place places alike i (working obj) (working t) j miss
            out
    ];
    busy = λ j o at. elim (Bool-cases (j == i)) [
      | inl hit ↦ (
        t,
        arrived places i (working t) j hit,
        subst (λ z. Held offset e' q z t) (newest j o hit at) pops.held,
      )
      | inr miss ↦
          let (u, works, held) = alike.busy j o (older j o miss at) in
          (u, passed places i (working t) j miss ∙ works, (pops.others o u held).1)
    ];
    apart = λ j k o at at'. elim (Bool-cases (j == i)) [
      | inl hit ↦ elim (Bool-cases (k == i)) [
        | inl hit' ↦ (==_iff j i).0 hit ∙ sym ((==_iff k i).0 hit')
        | inr miss' ↦ absurd (others k o (older k o miss' at') (sym (newest j o hit at)))
      ]
      | inr miss ↦ elim (Bool-cases (k == i)) [
        | inl hit' ↦ absurd (others j o (older j o miss at) (sym (newest k o hit' at')))
        | inr miss' ↦ alike.apart j k o (older j o miss at) (older k o miss' at')
      ]
    ];
  }
    where
      newest :
          (j : ℕ) (o : Ptr)
          → (j == i) ≡ true
          → at_thread i (working obj) place j ≡ working o
          → obj ≡ o
      newest j o hit at = working-injective (sym (arrived place i (working obj) j hit) ∙ at)

      older :
          (j : ℕ) (o : Ptr)
          → (j == i) ≡ false
          → at_thread i (working obj) place j ≡ working o
          → place j ≡ working o
      older j o miss at = sym (passed place i (working obj) j miss) ∙ at

      others : (j : ℕ) (o : Ptr) → place j ≡ working o → o ≢ obj
      others j o at = let (u, works, held) = alike.busy j o at in (pops.others o u held).0

  pub take-Kept :
      is_working (place i) ≡ false
      → Kept e ((obj, t) ∷ q) place
      → Kept e' q (at_thread i (working obj) place)
  take-Kept free kept o u meant = elim (kept o u (sym (ap (λ f. f o) pops.same_tasks) ∙ meant)) [
    | inl queued ↦ elim (Bool-cases (o == obj)) [
      | inl hit ↦ inr (
        i,
        arrived place i (working obj) i (ground arith) ∙ ap working (sym ((==_iff o obj).0 hit)),
      )
      | inr miss ↦ inl (ground arith)
    ]
    | inr (j, at) ↦ inr (j, passed place i (working obj) j (standing place i free j o at) ∙ at)
  ]

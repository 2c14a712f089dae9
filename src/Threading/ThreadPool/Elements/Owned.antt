-- ===== src/Threading/ThreadPool/Elements/Owned.antt =====
-- Who owns the queue elements of include/threading.hpp's `GenericThreadPool`: the list, or the worker
-- that popped one.
use mathlib.Core.Bool.{false≢true}
use fredlib.Base.{
  ℕ, ◌<◌, ◌≡◌, ◌≢◌, refl, sym, ap, ◌∙◌, true, false, Option, none, some, List, [], ◌∷◌, ◌==◌,
  if◌then◌else◌, arith, has, Bool-cases, inl, inr, ==_iff,
}
use fredlib.SafeList.Heap.{Ptr, null, clean, ListHook, Heap, write}
use fredlib.SafeList.Ops.{SafeList}
use fredlib.SafeList.Chain.{Seg-same}
use fredlib.SafeList.View.{RestClean}
use fredlib.SafeList.World.{World, Seg-live}
use fredlib.SafeList.Intrusive.{u64_mod, get_hook, get_parent}
use fredlib.SafeList.Objects.{get_parent-get_hook, hooks}
use fredlib.Threading.ThreadPool.Elements.{Elements, Unused, new_element, forget}

-- The elements in the queue, with their tasks.
abbrev pub objects : List (Ptr × ℕ) → List Ptr
objects [] = []
objects ((o, t) ∷ r) = o ∷ objects r

abbrev pub tasks : List (Ptr × ℕ) → List ℕ
tasks [] = []
tasks ((o, t) ∷ r) = t ∷ tasks r

abbrev pub Sound : (Ptr → Option ℕ) → List (Ptr × ℕ) → Type 0
Sound task [] = Unit
Sound task ((o, t) ∷ r) = (o ≢ null) × (o < u64_mod) × (task o ≡ some t) × Sound task r

-- The hooks of the queue.
abbrev pub queue_hooks : (offset : ℕ) → List (Ptr × ℕ) → List Ptr
queue_hooks offset q = hooks offset (objects q)

pub record Owned (offset : ℕ) (e : Elements) (q : List (Ptr × ℕ)) : Type 0 where
  pub world : World [] e.hooks e.base (queue_hooks offset q)
  pub sound : Sound e.task q

-- An element that is alive, outside the queue and unlinked.
pub record Held (offset : ℕ) (e : Elements) (q : List (Ptr × ℕ)) (obj : Ptr) (t : ℕ) : Type 0 where
  pub not_null : obj ≢ null
  pub small : obj < u64_mod
  pub there : e.hooks (get_hook offset obj) ≡ some clean
  pub unlinked : has (get_hook offset obj) (queue_hooks offset q) ≡ false
  pub meant : e.task obj ≡ some t

-- Different objects have different hooks.
pub get_hook-injective :
    (offset a b : ℕ) → a < u64_mod → b < u64_mod → get_hook offset a ≡ get_hook offset b → a ≡ b
get_hook-injective offset a b sa sb e =
    sym (get_parent-get_hook offset a sa)
    ∙ ap (get_parent offset) e
    ∙ get_parent-get_hook offset b sb

-- A list does not see a change of the heap at hooks that are not linked in it.
pub World-same :
    (h g : Heap) (l : SafeList) (xs : List Ptr)
    → World [] h l xs
    → ((p : Ptr) → has p xs ≡ true → g p ≡ h p)
    → RestClean g xs
    → World [] g l xs
World-same h g l xs w same rest = record {
  view = record {
    chain = Seg-same h null xs null w.view.chain same;
    distinct = w.view.distinct;
    head = w.view.head;
    tail = w.view.tail;
    size = w.view.size;
    awake = w.view.awake;
  };
  rest = rest;
  alive = λ p i. absurd (false≢true i);
}

-- A linked hook is on the heap.
linked-there :
    (h : Heap) (l : SafeList) (xs : List Ptr) (p : Ptr)
    → World [] h l xs
    → h p ≡ none
    → has p xs ≡ false
linked-there h l xs p w free = elim (Bool-cases (has p xs)) [
  | inl i ↦ absurd (let (n, at) = Seg-live h null xs null p w.view.chain i in cc (at.holds, free))
  | inr o ↦ o
]

pub Sound-same :
    (task task' : Ptr → Option ℕ) (q : List (Ptr × ℕ))
    → ((o : Ptr) (t : ℕ)
        → o < u64_mod
        → has o (objects q) ≡ true
        → task o ≡ some t
        → task' o ≡ some t)
    → Sound task q
    → Sound task' q
Sound-same task task' [] keep s = tt
Sound-same task task' ((o, t) ∷ r) keep (live, small, meant, s) = (
  live,
  small,
  keep o t small (ground arith) meant,
  Sound-same task task' r (λ p u b i. keep p u b (ground arith)) s,
)

pub has-objects :
    (offset : ℕ) (q : List (Ptr × ℕ)) (o : Ptr)
    → has o (objects q) ≡ true
    → has (get_hook offset o) (queue_hooks offset q) ≡ true
has-objects offset [] o i = i
has-objects offset ((p, t) ∷ r) o i = elim (Bool-cases (o == p)) [
  | inl hit ↦
      let e : get_hook offset o ≡ get_hook offset p = ap (get_hook offset) ((==_iff o p).0 hit) in
      ground arith
  | inr miss ↦ let rest = has-objects offset r o (ground arith) in ground arith
]

-- An occupied address is not a free one.
pub apart :
    {A : Type 0} (f : Ptr → Option A) (a b : Ptr) {x : A}
    → f a ≡ some x
    → f b ≡ none
    → (a == b) ≡ false
apart f a b full free = elim (Bool-cases (a == b)) [
  | inl hit ↦ absurd (cc (sym full ∙ ap f ((==_iff a b).0 hit) ∙ free))
  | inr miss ↦ miss
]

-- A hook in a list is not one outside of it.
pub has-differ : (p a : Ptr) (xs : List Ptr) → has p xs ≡ true → has a xs ≡ false → (p == a) ≡ false
has-differ p a xs i o = elim (Bool-cases (p == a)) [
  | inl hit ↦ absurd (false≢true (sym o ∙ ap (λ z. has z xs) (sym ((==_iff p a).0 hit)) ∙ i))
  | inr miss ↦ miss
]

write-other : (h : Heap) (p a : Ptr) (n : ListHook) → (p == a) ≡ false → write h a n p ≡ h p
unfolding write
write-other h p a n miss = rw miss refl

some-injective : {a b : ListHook} → ◌≡◌ {A = Option ListHook} (some a) (some b) → a ≡ b
some-injective e = cc

RestClean-write :
    (h : Heap) (a : Ptr) (xs : List Ptr) → RestClean h xs → RestClean (write h a clean) xs
unfolding write
RestClean-write h a xs rest p n at o = elim (Bool-cases (p == a)) [
  | inl hit ↦ some-injective (sym at ∙ ap (λ b. if b then some clean else h p) hit)
  | inr miss ↦ rest p n (sym (ap (λ b. if b then some clean else h p) miss) ∙ at) o
]

pub forget-other :
    {A : Type 0} (f : Ptr → Option A) (p a : Ptr) → (p == a) ≡ false → forget a f p ≡ f p
forget-other f p a miss = rw miss refl

pub RestClean-forget :
    (h : Heap) (a : Ptr) (xs : List Ptr) → RestClean h xs → RestClean (forget a h) xs
RestClean-forget h a xs rest p n at o = elim (Bool-cases (p == a)) [
  | inl hit ↦ absurd (cc (at, ap (λ b. if b then none else h p) hit))
  | inr miss ↦ rest p n (sym (forget-other h p a miss) ∙ at) o
]

module _ (offset : ℕ) (e : Elements) (q : List (Ptr × ℕ)) (owned : Owned offset e q) where
  module _ (obj : Ptr) (t : ℕ) (unused : Unused offset e obj) where
    -- No object stands at an unused address.
    pub other-object : (o : Ptr) (u : ℕ) → e.task o ≡ some u → (o == obj) ≡ false
    other-object o u meant = apart e.task o obj meant unused.no_task

    outside : has (get_hook offset obj) (queue_hooks offset q) ≡ false
    outside =
        linked-there e.hooks e.base (queue_hooks offset q) (get_hook offset obj) owned.world
          unused.no_hook

    -- A new element is held, and the others stay as they are.
    pub new_element-Owned : Owned offset (new_element offset obj t e) q
    unfolding new_element
    new_element-Owned = record {
      world =
          World-same e.hooks _ e.base (queue_hooks offset q) owned.world
            (λ p i.
              write-other e.hooks p (get_hook offset obj) clean
                (has-differ p (get_hook offset obj) (queue_hooks offset q) i outside))
            (RestClean-write e.hooks (get_hook offset obj) (queue_hooks offset q) owned.world.rest);
      sound =
          Sound-same e.task _ q (λ o u small i meant. rw (other-object o u meant) meant)
            owned.sound;
    }

    pub new_element-Held : Held offset (new_element offset obj t e) q obj t
    unfolding new_element write
    new_element-Held = record {
      not_null = unused.not_null;
      small = unused.small;
      there = ground arith;
      unlinked = outside;
      meant = ground arith;
    }

    pub new_element-others :
        (o : Ptr) (u : ℕ) → Held offset e q o u → Held offset (new_element offset obj t e) q o u
    unfolding new_element
    new_element-others o u held = record {
      not_null = held.not_null;
      small = held.small;
      there =
          write-other e.hooks (get_hook offset o) (get_hook offset obj) clean
            (apart e.hooks _ _ held.there unused.no_hook)
          ∙ held.there;
      unlinked = held.unlinked;
      meant = rw (other-object o u held.meant) held.meant;
    }

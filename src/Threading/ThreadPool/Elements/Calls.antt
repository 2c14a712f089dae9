-- ===== src/Threading/ThreadPool/Elements/Calls.antt =====
-- What `push_function` does to the queue elements of include/threading.hpp's `GenericThreadPool`.
use fredlib.Base.{
  ℕ, ◌<◌, ◌≡◌, ◌≢◌, refl, sym, ap, ◌∙◌, subst, true, false, ◌⊎◌, Option, some, List, [], ◌∷◌, ◌++◌,
  ◌==◌, if◌then◌else◌, arith, has, Bool-cases, inl, inr, ==_iff, has-append,
}
use fredlib.SafeList.Heap.{Ptr, null, clean, Heap, Outcome, ok, proceed, pure}
use fredlib.SafeList.Returns.{Returns, returns}
use fredlib.SafeList.Chain.{At}
use fredlib.SafeList.World.{World, World-grown}
use fredlib.SafeList.Push.{push_back-snoc}
use fredlib.SafeList.Intrusive
use fredlib.SafeList.Intrusive.{u64_mod, IntrusiveSafeList, get_hook, get_parent, parent_of}
use fredlib.SafeList.Objects.{hooks, hooks-append}
use fredlib.Threading.ThreadPool.Elements.{
  Elements, Unused, queue_of, new_element, push_element, after_push,
}
use fredlib.Threading.ThreadPool.Elements.Owned.{
  objects, tasks, Sound, queue_hooks, Owned, Held, new_element-Owned, new_element-Held,
  new_element-others, other-object, apart,
}

-- An action that returns comes to a value.
pub outcome_of :
    {R : Type 0} {Post : R → Heap → Type 0} {o : Outcome R}
    → Returns Post o
    → (r : R) × (g : Heap) × (o ≡ ok r g) × Post r g
outcome_of (returns {result} {left} post) = (result, left, refl, post)

pub objects-append : (q r : List (Ptr × ℕ)) → objects (q ++ r) ≡ objects q ++ objects r
objects-append [] r = refl
objects-append ((o, t) ∷ q) r = ap {B = List Ptr} (λ l. o ∷ l) (objects-append q r)

pub tasks-append : (q r : List (Ptr × ℕ)) → tasks (q ++ r) ≡ tasks q ++ tasks r
tasks-append [] r = refl
tasks-append ((o, t) ∷ q) r = ap {B = List ℕ} (λ l. t ∷ l) (tasks-append q r)

queue_hooks-snoc :
    (offset : ℕ) (q : List (Ptr × ℕ)) (o : Ptr) (t : ℕ)
    → queue_hooks offset (q ++ (o, t) ∷ []) ≡ queue_hooks offset q ++ get_hook offset o ∷ []
queue_hooks-snoc offset q o t =
    ap (hooks offset) (objects-append q ((o, t) ∷ [])) ∙ hooks-append offset (objects q) (o ∷ [])

Sound-snoc :
    (task : Ptr → Option ℕ) (q : List (Ptr × ℕ)) (o : Ptr) (t : ℕ)
    → Sound task q
    → o ≢ null
    → o < u64_mod
    → task o ≡ some t
    → Sound task (q ++ (o, t) ∷ [])
Sound-snoc task [] o t s live small meant = (live, small, meant, tt)
Sound-snoc task ((p, u) ∷ q) o t (a, b, c, s) live small meant =
    (a, b, c, Sound-snoc task q o t s live small meant)

out-snoc : (hs : List Ptr) (n p : Ptr) → has p (hs ++ n ∷ []) ≡ false → has p hs ≡ false
out-snoc hs n p o = ground (arith, has-append p hs (n ∷ []))

pub has-here : (p : Ptr) (hs : List Ptr) → has p (p ∷ hs) ≡ true
has-here p hs = ground arith

-- What `push_function` leaves: the queue, and what the workers hold.
pub record Pushed (offset : ℕ) (e : Elements) (q : List (Ptr × ℕ)) (obj : Ptr) (t : ℕ)
    (e' : Elements) : Type 0 where
  pub owned : Owned offset e' (q ++ (obj, t) ∷ [])
  pub others : (o : Ptr) (u : ℕ) → Held offset e q o u → Held offset e' (q ++ (obj, t) ∷ []) o u
  pub only_new : (o : Ptr) (u : ℕ) → e'.task o ≡ some u → (o ≡ obj) ⊎ (e.task o ≡ some u)
  pub kept_old : (o : Ptr) (u : ℕ) → e.task o ≡ some u → e'.task o ≡ some u

module _ (offset : ℕ) (e : Elements) (q : List (Ptr × ℕ)) (obj : Ptr) (t : ℕ)
    (owned : Owned offset e q) (unused : Unused offset e obj) where
  abbrev made : Elements
  made = new_element offset obj t e

  abbrev new_hook : Ptr
  new_hook = get_hook offset obj

  pub push_element-Pushed :
      (e' : Elements) × (push_element offset obj t e ≡ some e') × Pushed offset e q obj t e'
  unfolding push_element Intrusive.push_back new_element
  push_element-Pushed =
      let w = new_element-Owned offset e q owned obj t unused in
      let new = new_element-Held offset e q owned obj t unused in
      let hs = queue_hooks offset q in
      let at : At made.hooks new_hook clean = record {
        live = unused.hook_not_null;
        holds = new.there;
      } in
      let ((done, l), g, eq, (_, view, same)) = outcome_of (
        push_back-snoc made.hooks made.base new_hook clean at hs w.world.view new.unlinked
          (λ _. refl)) in
      (
        record made { base = l; hooks = g },
        ap
            (λ o.
              after_push made
                (proceed o (λ r. pure (r.0, record (queue_of offset made) { base = r.1 }))))
            eq,
        record {
          owned = record {
            world = subst (World [] g l) (sym (queue_hooks-snoc offset q obj t)) (
                World-grown [] made.hooks made.base hs w.world (hs ++ new_hook ∷ []) g l view same
                  (out-snoc hs new_hook));
            sound = Sound-snoc made.task q obj t w.sound unused.not_null unused.small new.meant;
          };
          others = λ o u held.
              let old = new_element-others offset e q owned obj t unused o u held in
              let out : has (get_hook offset o) (hs ++ new_hook ∷ []) ≡ false = ground (
                arith,
                has-append (get_hook offset o) hs (new_hook ∷ []),
                old.unlinked,
                apart e.hooks (get_hook offset o) new_hook held.there unused.no_hook,
              ) in
              record {
                not_null = old.not_null;
                small = old.small;
                there = same (get_hook offset o) out ∙ old.there;
                unlinked = ap (has (get_hook offset o)) (queue_hooks-snoc offset q obj t) ∙ out;
                meant = old.meant;
              };
          only_new = λ o u meant. elim (Bool-cases (o == obj)) [
            | inl hit ↦ inl ((==_iff o obj).0 hit)
            | inr miss ↦ inr (sym (ap (λ b. if b then some t else e.task o) miss) ∙ meant)
          ];
          kept_old = λ o u meant.
              ap (λ b. if b then some t else e.task o)
                (other-object offset e q owned obj t unused o u meant)
              ∙ meant;
        },
      )

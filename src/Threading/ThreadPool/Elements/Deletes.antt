-- ===== src/Threading/ThreadPool/Elements/Deletes.antt =====
-- What the run and the deletion of an element of include/threading.hpp's `GenericThreadPool` leave.
use mathlib.Core.Bool.{false≢true}
use fredlib.Base.{
  ℕ, ◌<◌, ◌≡◌, ◌≢◌, sym, ap, ◌∙◌, true, false, none, some, List, ◌==◌, if◌then◌else◌, arith, has,
  Bool-cases, inl, inr, ==_iff,
}
use fredlib.SafeList.Heap.{Ptr}
use fredlib.SafeList.Intrusive.{u64_mod, get_hook}
use fredlib.Threading.ThreadPool.Elements.{
  Elements, delete_element, run_element, forget, freed, ran,
}
use fredlib.Threading.ThreadPool.Elements.Owned.{
  objects, queue_hooks, Owned, Held, get_hook-injective, World-same, forget-other, has-differ,
  RestClean-forget, Sound-same, has-objects,
}

-- What the run and the deletion of a held element leave.
pub record Deleted (offset : ℕ) (e : Elements) (q : List (Ptr × ℕ)) (obj : Ptr) (e' : Elements)
    : Type 0 where
  pub owned : Owned offset e' q
  pub others : (o : Ptr) (u : ℕ) → Held offset e q o u → o ≢ obj → Held offset e' q o u
  pub fewer : (o : Ptr) (u : ℕ) → e'.task o ≡ some u → (o ≢ obj) × (e.task o ≡ some u)

pub run_element-Deleted :
    (offset : ℕ) (e : Elements) (q : List (Ptr × ℕ)) (obj : Ptr) (t : ℕ)
    → Owned offset e q
    → Held offset e q obj t
    → (e' : Elements) × (run_element offset obj e ≡ some (t, e')) × Deleted offset e q obj e'
unfolding run_element delete_element
run_element-Deleted offset e q obj t owned held =
    let hs = queue_hooks offset q in
    let gone = get_hook offset obj in
    (
      record e { hooks = forget gone e.hooks; task = forget obj e.task },
      ap (λ m. ran m (freed offset obj e (e.hooks gone))) held.meant
          ∙ ap (λ n. ran (some t) (freed offset obj e n)) held.there,
      record {
        owned = record {
          world =
              World-same e.hooks _ e.base hs owned.world
                (λ p i. forget-other e.hooks p gone (has-differ p gone hs i held.unlinked))
                (RestClean-forget e.hooks gone hs owned.world.rest);
          sound =
              Sound-same e.task _ q (λ o u small i m. forget-other e.task o obj (in_queue o i) ∙ m)
                owned.sound;
        };
        others = λ o u other differ. record {
          not_null = other.not_null;
          small = other.small;
          there =
              forget-other e.hooks (get_hook offset o) gone (hooks_differ o other.small differ)
              ∙ other.there;
          unlinked = other.unlinked;
          meant = forget-other e.task o obj (ground arith) ∙ other.meant;
        };
        fewer = λ o u meant. elim (Bool-cases (o == obj)) [
          | inl hit ↦ absurd (cc (meant, ap (λ b. if b then none else e.task o) hit))
          | inr miss ↦ (ground arith, sym (forget-other e.task o obj miss) ∙ meant)
        ];
      },
    )
  where
    in_queue : (o : Ptr) → has o (objects q) ≡ true → (o == obj) ≡ false
    in_queue o i = elim (Bool-cases (o == obj)) [
      | inl hit ↦ absurd (
          false≢true (
            sym held.unlinked
            ∙ ap (λ z. has (get_hook offset z) (queue_hooks offset q)) (sym ((==_iff o obj).0 hit))
            ∙ has-objects offset q o i))
      | inr miss ↦ miss
    ]

    hooks_differ :
        (o : Ptr) → o < u64_mod → o ≢ obj → (get_hook offset o == get_hook offset obj) ≡ false
    hooks_differ o small differ = elim (Bool-cases (get_hook offset o == get_hook offset obj)) [
      | inl hit ↦
          absurd (differ (get_hook-injective offset o obj small held.small ((==_iff _ _).0 hit)))
      | inr miss ↦ miss
    ]

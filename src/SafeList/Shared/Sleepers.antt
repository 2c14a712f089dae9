-- ===== src/SafeList/Shared/Sleepers.antt =====
-- Who sleeps on `mListCV` of include/safe_list.hpp while threads share a list.
use mathlib.Core.Bool.{false≢true}
use fredlib.Base.{
  ℕ, ◌≡◌, ◌≢◌, refl, sym, ap, ◌∙◌, subst, Bool, true, false, not, ◌&&◌, ◌||◌, List, [], ◌∷◌, ◌++◌,
  if◌then◌else◌, ◌==◌,
}
use fredlib.SafeList.Heap.{Ptr, Heap, Outcome, fault, ok, proceed, Action, pure, ◌>>◌, load}
use fredlib.SafeList.Hook.{unlink, link_after}
use fredlib.SafeList.Ops.{
  SafeList, new_list, is_empty, notify_all, grow, insert_refused, insert_link, insert, erase_tail,
  erase_head, erase, push_back, push_front, must_wait, take_front, take_back, pop_front, pop_back,
}
use fredlib.SafeList.Shared.{
  Shared, Step, inserts, erases, pushes_back, pushes_front, pops_front, pops_back, wakes, writes,
  Reach, here, later,
}

-- No thread sleeps unless the list is empty.
abbrev pub Quiet : SafeList → Type 0
Quiet l = is_empty l ≡ false → l.asleep ≡ []

module _ {R : Type 0} where
  -- Unless the action faults, it leaves a quiet list.
  abbrev Calm : Outcome (R × SafeList) → Type 0
  Calm fault = Unit
  Calm (ok r h) = Quiet r.1

  if-Calm :
      (b : Bool) (m k : Action (R × SafeList)) (h : Heap)
      → (b ≡ true → Calm (m h))
      → (b ≡ false → Calm (k h))
      → Calm ((if b then m else k) h)
  if-Calm true m k h first second = first refl
  if-Calm false m k h first second = second refl

  after-Calm :
      {S : Type 0} (o : Outcome S) (next : S → Action (R × SafeList))
      → ((s : S) (h : Heap) → Calm (next s h))
      → Calm (proceed o next)
  after-Calm fault next calm = tt
  after-Calm (ok s h) next calm = calm s h

module _ (l : SafeList) (q : Quiet l) where
  insert-Calm : (existing new : Ptr) (h : Heap) → Calm (insert existing new l h)
  unfolding insert
  insert-Calm existing new h =
      if-Calm (insert_refused existing new l) (pure (false, l)) _ h (λ _. q)
        (λ _. after-Calm (insert_link existing new l h) _ (λ l' g _. refl))

  erase-Calm : (node : Ptr) (h : Heap) → Calm (erase node l h)
  unfolding erase
  erase-Calm node h =
      if-Calm (node == 0) (pure (false, l)) _ h (λ _. q)
        (λ _. after-Calm (erase_tail node l h) _ (λ l' g.
          after-Calm (erase_head node l' g) _
            (λ l'' g'. after-Calm (unlink node g') _ (λ u g'' _. refl))))

  push_back-Calm : (new : Ptr) (h : Heap) → Calm (push_back new l h)
  unfolding push_back
  push_back-Calm new h =
      if-Calm (new == 0) (pure (false, l)) _ h (λ _. q)
        (λ _.
          after-Calm {S = SafeList}
            ((if is_empty l
                then pure (record l { head = new; tail = new })
                else (do link_after new l.tail; pure (record l { tail = new })))
              h)
            (λ l'. pure (true, notify_all (grow l'))) (λ l' g _. refl))

  -- A list that was not empty had no sleepers.
  take_front-Calm : (h : Heap) → Calm (take_front l h)
  unfolding take_front
  take_front-Calm h =
      if-Calm (is_empty l) (pure (_, l)) _ h (λ _. q)
        (λ full.
          after-Calm (load l.head h) _ (λ n g. after-Calm (unlink l.head g) _ (λ u g' _. q full)))

  take_back-Calm : (h : Heap) → Calm (take_back l h)
  unfolding take_back
  take_back-Calm h =
      if-Calm (is_empty l) (pure (_, l)) _ h (λ _. q)
        (λ full.
          after-Calm (load l.tail h) _ (λ n g. after-Calm (unlink l.tail g) _ (λ u g' _. q full)))

  no_wait :
      (timeout : ℕ) (expired : Bool) → is_empty l ≡ false → must_wait timeout expired l ≡ false
  unfolding must_wait
  no_wait timeout expired full = ap (λ b. b && ((timeout == 0) || not expired)) full

  pop_front-Calm :
      (thread timeout : ℕ) (expired : Bool) (h : Heap) → Calm (pop_front thread timeout expired l h)
  unfolding pop_front is_empty
  pop_front-Calm thread timeout expired h =
      if-Calm (must_wait timeout expired l) (pure (_, record l { asleep = thread ∷ l.asleep }))
        (take_front l) h
        (λ waits full. absurd (false≢true (sym (no_wait timeout expired full) ∙ waits)))
        (λ _. take_front-Calm h)

  pop_back-Calm :
      (thread timeout : ℕ) (expired : Bool) (h : Heap) → Calm (pop_back thread timeout expired l h)
  unfolding pop_back is_empty
  pop_back-Calm thread timeout expired h =
      if-Calm (must_wait timeout expired l) (pure (_, record l { asleep = thread ∷ l.asleep }))
        (take_back l) h
        (λ waits full. absurd (false≢true (sym (no_wait timeout expired full) ∙ waits)))
        (λ _. take_back-Calm h)

Step-Quiet : {s t : Shared} → Step s t → Quiet s.list → Quiet t.list
unfolding push_front is_empty
Step-Quiet {s} (inserts existing new done e) q =
    subst Calm e (insert-Calm s.list q existing new s.heap)
Step-Quiet {s} (erases node done e) q = subst Calm e (erase-Calm s.list q node s.heap)
Step-Quiet {s} (pushes_back new done e) q = subst Calm e (push_back-Calm s.list q new s.heap)
Step-Quiet {s} (pushes_front front new done e) q =
    subst Calm e (insert-Calm s.list q front new s.heap)
Step-Quiet {s} (pops_front thread timeout expired p e) q =
    subst Calm e (pop_front-Calm s.list q thread timeout expired s.heap)
Step-Quiet {s} (pops_back thread timeout expired p e) q =
    subst Calm e (pop_back-Calm s.list q thread timeout expired s.heap)
Step-Quiet (wakes xs ys thread slept e) q =
    subst Quiet (sym e) (λ full. absurd (never xs (sym slept ∙ q full)))
  where
    never : (xs : List ℕ) → (xs ++ thread ∷ ys) ≢ []
    never [] e = cc
    never (x ∷ xs) e = cc
Step-Quiet (writes e) q = subst Quiet (sym e) q

-- In every state that threads reach from a new list by calls of `insert`, `erase`, `push_back`,
-- `push_front`, `pop_front` and `pop_back` that do not fault, with any arguments and in any order,
-- and by wake-ups: while the list is not empty, no thread sleeps on its condition variable.
pub nonempty-awake :
    {h : Heap} {s : Shared}
    → Reach (record { list = new_list; heap = h }) s
    → is_empty s.list ≡ false
    → s.list.asleep ≡ []
nonempty-awake here = λ _. refl
nonempty-awake (later r st) = Step-Quiet st (nonempty-awake r)

-- ===== src/Threading/FanInPoint/Members.antt =====
-- include/threading.hpp, `class FanInPoint`, with all of its members: children are counted while others work,
-- and the object is used again.
use fredlib.Base.{ℕ, ◌<◌, ◌≤◌, ◌≡◌, refl, sym, ap, ◌∙◌, ◌≢◌, true, false, arith, ltb}
use fredlib.Base.Int.{pos, ◌+ℤ◌, +ℤ_pos, pos-injective}
use fredlib.Threading.Threads.{
  bit, at_thread, how_many, how_many-at_thread, how_many-zero, how_many-none, how_many-first,
}
use fredlib.Threading.FanInPoint.{
  outside, asleep, woken, returned, FanInPoint, new_fan_in_point, done, wait, waiter_to, add,
  add_thread, initialize, set_threadnum,
}
use fredlib.Threading.FanInPoint.Gate.{is, done-counted}

-- No child `i < n` works.
abbrev pub Resting : ℕ → FanInPoint → Type 0
Resting n s = (i : ℕ) → i < n → s.working i ≡ false

abbrev pub starts_work : ℕ → FanInPoint → FanInPoint
starts_work i s = record s { working = at_thread i true s.working }

abbrev pub first_work : ℕ → FanInPoint → FanInPoint
first_work k s = record s { working = λ i. ltb i k }

-- The parent counts a child before it works, by `add` or by `add_thread(1)`, or, when no child works, sets the
-- count to that of the children it is about to start.
pub data Step (n : ℕ) (s : FanInPoint) : FanInPoint → Type 0 where
  counts : (i : ℕ) → i < n → s.working i ≡ false → Step n s (starts_work i (add s))
  adds : (i : ℕ) → i < n → s.working i ≡ false → Step n s (starts_work i (add_thread (pos 1) s))
  initializes : (k : ℕ) → k ≤ n → Resting n s → Step n s (first_work k (initialize (pos k) s))
  sets : (k : ℕ) → k ≤ n → Resting n s → Step n s (first_work k (set_threadnum (pos k) s))
  finishes : (i : ℕ) → i < n → s.working i ≡ true → Step n s (done i s)
  waits : (j : ℕ) → s.waiter j ≡ outside → Step n s (wait j s)
  wakes : (j : ℕ) → s.waiter j ≡ asleep → Step n s (waiter_to j woken s)
  tests : (j : ℕ) → s.waiter j ≡ woken → Step n s (wait j s)
  leaves : (j : ℕ) → s.waiter j ≡ returned → Step n s (waiter_to j outside s)

pub data Reach (n : ℕ) (s : FanInPoint) : FanInPoint → Type 0 where
  here : Reach n s s
  later : {t u : FanInPoint} → Reach n s t → Step n t u → Reach n s u

-- The object as it is made, before any child is counted.
abbrev pub unused : FanInPoint
unused = record (new_fan_in_point (pos 0)) { working = λ _. false }

record Inv (n : ℕ) (s : FanInPoint) : Type 0 where
  counted : s.expected ≡ pos (how_many is n s.working)
  awake : (j : ℕ) → s.waiter j ≡ asleep → s.expected ≢ pos 0

-- One child more.
counted_more :
    (n : ℕ) (s : FanInPoint) (i : ℕ)
    → i < n
    → s.working i ≡ false
    → s.expected ≡ pos (how_many is n s.working)
    → s.expected +ℤ pos 1 ≡ pos (how_many is n (at_thread i true s.working))
counted_more n s i lt e c =
    let step = how_many-at_thread is n s.working i true lt in
    let none : bit (s.working i) ≡ 0 = ap bit e in
    ap (λ x. x +ℤ pos 1) c ∙ +ℤ_pos (how_many is n s.working) 1 ∙ ap pos (omega arith)

module _ (n : ℕ) (s : FanInPoint) (inv : Inv n s) where
  more-Inv :
      (i : ℕ)
      → i < n
      → s.working i ≡ false
      → Inv n (starts_work i (record s { expected = s.expected +ℤ pos 1 }))
  more-Inv i lt e =
      let c = counted_more n s i lt e inv.counted in
      let step = how_many-at_thread is n s.working i true lt in
      record {
        counted = c;
        awake = λ j q z.
            let zero_now = pos-injective (sym c ∙ z) in
            absurd (omega (arith, zero_now, step, ap bit e));
      }

  -- With no child at work the count is 0, and nobody sleeps.
  again-Inv : (k : ℕ) → k ≤ n → Resting n s → Inv n (first_work k (record s { expected = pos k }))
  again-Inv k le rest = record {
    counted = ap pos (omega (arith, how_many-first is n k refl refl));
    awake = λ j q z. inv.awake j q (inv.counted ∙ ap pos (how_many-none is n s.working rest));
  }

  wait-Inv : (j : ℕ) → Inv n (wait j s)
  unfolding wait
  wait-Inv j = record {
    counted = ground (arith, inv.counted);
    awake = λ k q. ground (arith, inv.awake k);
  }

Step-Inv : {n : ℕ} {s t : FanInPoint} → Step n s t → Inv n s → Inv n t
unfolding add add_thread initialize set_threadnum done
Step-Inv {n} {s} (counts i lt e) inv = more-Inv n s inv i lt e
Step-Inv {n} {s} (adds i lt e) inv = more-Inv n s inv i lt e
Step-Inv {n} {s} (initializes k le rest) inv = again-Inv n s inv k le rest
Step-Inv {n} {s} (sets k le rest) inv = again-Inv n s inv k le rest
Step-Inv {n} {s} (finishes i lt e) inv = record {
  counted = done-counted n s i lt e inv.counted;
  awake = λ j q. absurd (ground arith);
}
Step-Inv {n} {s} (waits j e) inv = wait-Inv n s inv j
Step-Inv {n} {s} (tests j e) inv = wait-Inv n s inv j
Step-Inv {n} {s} (wakes j e) inv = record {
  counted = inv.counted;
  awake = λ k q. ground (arith, inv.awake k);
}
Step-Inv {n} {s} (leaves j e) inv = record {
  counted = inv.counted;
  awake = λ k q. ground (arith, inv.awake k);
}

Reach-Inv : {n : ℕ} {s : FanInPoint} → Reach n unused s → Inv n s
Reach-Inv {n} here = record {
  counted = ap pos (sym (how_many-none is n (λ _. false) (λ i lt. refl)));
  awake = λ j e. cc;
}
Reach-Inv (later r st) = Step-Inv st (Reach-Inv r)

-- In every state that a `FanInPoint` reaches whose children `i < n` are counted before they work,
-- by `add` or `add_thread`, or all at once by `initialize` or `set_threadnum` while none works,
-- and call `done` once when they have worked: a call of `wait` returns only if no child works; and
-- if none works, no caller of `wait` sleeps and each returns when it tests the predicate.
pub wait-counted :
    {n : ℕ} {s : FanInPoint}
    → Reach n unused s
    → (j : ℕ)
    → ((wait j s).waiter j ≡ returned → Resting n s)
      × (Resting n s → (s.waiter j ≢ asleep) × ((wait j s).waiter j ≡ returned))
unfolding wait
wait-counted {n} {s} r j =
    let inv = Reach-Inv r in
    (
      λ e i lt.
          let gate : s.expected ≡ pos 0 = ground (arith, e) in
          how_many-zero is n s.working i (pos-injective (sym inv.counted ∙ gate)) lt,
      λ rest.
          let gate : s.expected ≡ pos 0 =
            inv.counted ∙ ap pos (how_many-none is n s.working rest) in
          (λ e. inv.awake j e gate, ground (arith, gate)),
    )

-- ===== src/Threading/FanInPoint/Gate.antt =====
-- What `wait` of include/threading.hpp's `FanInPoint` guarantees to its callers.
use mathlib.Core.Bool.{false≢true}
use fredlib.Base.{ℕ, ◌<◌, ◌≡◌, refl, sym, ap, ◌∙◌, ◌≢◌, Bool, true, false, arith}
use fredlib.Base.Int.{pos, ◌-ℤ◌, -ℤ_pos, ltb_ℤ, pos-injective}
use fredlib.Threading.Threads.{
  bit, at_thread, how_many, how_many-at_thread, how_many-every, how_many-zero, how_many-none,
}
use fredlib.Threading.FanInPoint.{
  asleep, returned, FanInPoint, new_fan_in_point, done, wait, Step, finishes, waits, wakes, tests,
  leaves, Reach, here, later,
}

abbrev pub is : Bool → Bool
is b = b

-- The counter is the number of the children that work; `wait` has returned only if there is none;
-- a caller of `wait` sleeps only if there is one.
pub record Inv (n : ℕ) (s : FanInPoint) : Type 0 where
  pub counted : s.expected ≡ pos (how_many is n s.working)
  pub held : (j : ℕ) → s.waiter j ≡ returned → s.expected ≡ pos 0
  pub awake : (j : ℕ) → s.waiter j ≡ asleep → s.expected ≢ pos 0

start-Inv : (n : ℕ) → Inv n (new_fan_in_point (pos n))
start-Inv n = record {
  counted = ap pos (sym (how_many-every is n (λ _. true) (λ i lt. refl)));
  held = λ j e. cc;
  awake = λ j e. cc;
}

-- `done` by a child that works counts it out.
pub done-counted :
    (n : ℕ) (s : FanInPoint) (i : ℕ)
    → i < n
    → s.working i ≡ true
    → s.expected ≡ pos (how_many is n s.working)
    → s.expected -ℤ pos 1 ≡ pos (how_many is n (at_thread i false s.working))
done-counted n s i lt e c =
    let step = how_many-at_thread is n s.working i false lt in
    let one : bit (s.working i) ≡ 1 = ap bit e in
    ap (λ x. x -ℤ pos 1) c ∙ -ℤ_pos (how_many is n s.working) 1 (omega arith) ∙ ap pos (omega arith)

Step-Inv : {n : ℕ} {s t : FanInPoint} → Step n s t → Inv n s → Inv n t
unfolding done wait
Step-Inv {n} {s} (finishes i lt e) inv =
    let c = done-counted n s i lt e inv.counted in
    record {
      counted = c;
      held = λ j q. absurd (
          false≢true (
            sym (
              how_many-zero is n s.working i
                (pos-injective (sym inv.counted ∙ inv.held j (ground arith))) lt)
            ∙ e));
      awake = λ j q. absurd (ground arith);
    }
Step-Inv {n} {s} (waits j e) inv = record {
  counted = ground (arith, inv.counted);
  held = λ k q. ground (arith, inv.held k);
  awake = λ k q. ground (arith, inv.awake k);
}
Step-Inv {n} {s} (wakes j e) inv = record {
  counted = inv.counted;
  held = λ k q. ground (arith, inv.held k);
  awake = λ k q. ground (arith, inv.awake k);
}
Step-Inv {n} {s} (tests j e) inv = record {
  counted = ground (arith, inv.counted);
  held = λ k q. ground (arith, inv.held k);
  awake = λ k q. ground (arith, inv.awake k);
}
Step-Inv {n} {s} (leaves j e) inv = record {
  counted = inv.counted;
  held = λ k q. ground (arith, inv.held k);
  awake = λ k q. ground (arith, inv.awake k);
}

pub Reach-Inv : {n : ℕ} {s : FanInPoint} → Reach n (new_fan_in_point (pos n)) s → Inv n s
Reach-Inv {n} here = start-Inv n
Reach-Inv (later r st) = Step-Inv st (Reach-Inv r)

-- In every state that is reached from a new `FanInPoint` of count `n` with `n` children that call
-- `done` once each: if some call of `wait` has returned, every child has called `done`.
pub wait-all_done :
    {n : ℕ} {s : FanInPoint}
    → Reach n (new_fan_in_point (pos n)) s
    → (j : ℕ) → s.waiter j ≡ returned
    → (i : ℕ) → i < n
    → s.working i ≡ false
wait-all_done {n} {s} r j e i lt =
    let inv = Reach-Inv r in
    how_many-zero is n s.working i (pos-injective (sym inv.counted ∙ inv.held j e)) lt

-- In every state that is reached from a new `FanInPoint` of count `n` and in which each of its `n`
-- children has called `done`: no caller of `wait` sleeps, and each returns when it tests the
-- predicate.
pub wait-returns :
    {n : ℕ} {s : FanInPoint}
    → Reach n (new_fan_in_point (pos n)) s
    → ((i : ℕ) → i < n → s.working i ≡ false)
    → (j : ℕ) → (s.waiter j ≢ asleep) × ((wait j s).waiter j ≡ returned)
unfolding wait
wait-returns {n} {s} r all j =
    let inv = Reach-Inv r in
    let gate : s.expected ≡ pos 0 = inv.counted ∙ ap pos (how_many-none is n s.working all) in
    (λ e. inv.awake j e gate, ground (arith, gate))

-- The counter below zero, and who may have returned.
abbrev Overdone : FanInPoint → FanInPoint → Type 0
Overdone s t =
    (ltb_ℤ t.expected (pos 0) ≡ true) × ((j : ℕ) → t.waiter j ≡ returned → s.waiter j ≡ returned)

Step-Overdone :
    (s : FanInPoint) {n : ℕ} {t u : FanInPoint} → Step n t u → Overdone s t → Overdone s u
unfolding done wait ◌-ℤ◌
Step-Overdone s (finishes i lt e) (low, old) = (ground arith, λ j q. ground (arith, old j))
Step-Overdone s (waits i e) (low, old) = (ground arith, λ j q. ground (arith, old j))
Step-Overdone s (wakes i e) (low, old) = (low, λ j q. ground (arith, old j))
Step-Overdone s (tests i e) (low, old) = (ground arith, λ j q. ground (arith, old j))
Step-Overdone s (leaves i e) (low, old) = (low, λ j q. ground (arith, old j))

Reach-Overdone :
    (s : FanInPoint) {n : ℕ} {t u : FanInPoint} → Overdone s t → Reach n t u → Overdone s u
Reach-Overdone s o here = o
Reach-Overdone s o (later r st) = Step-Overdone s st (Reach-Overdone s o r)

-- If the count of a `FanInPoint` is 0 while child `i` works, a call of `wait` made now returns
-- while the child works; and after the child's `done` no call of `wait` that had not returned
-- before returns in any state reached from there.
pub wait-uncounted :
    (s : FanInPoint) (i : ℕ) {n : ℕ} {t : FanInPoint}
    → s.expected ≡ pos 0
    → s.working i ≡ true
    → Reach n (done i s) t
    → (j : ℕ) → s.waiter j ≢ returned
    → ((wait j s).waiter j ≡ returned) × ((wait j s).working i ≡ true) × (t.waiter j ≢ returned)
unfolding done wait ◌-ℤ◌
wait-uncounted s i e w r j nr =
    (ground (arith, e), ground arith, λ q. nr ((Reach-Overdone s first r).1 j q))
  where
    first : Overdone s (done i s)
    first = (ground (arith, e), λ k p. ground arith)

-- ===== src/Threading/SyncPoint/Barrier.antt =====
-- The barrier of include/threading.hpp's `SyncPoint`, for `n` expected threads.
use fredlib.Base.{
  ℕ, zero, suc, ◌<◌, ◌≡◌, refl, ◌≢◌, Bool, true, false, ◌==◌, if◌then◌else◌, arith, ◌⊎◌, inl, inr,
  ap, ◌∙◌, sym,
}
use mathlib.Core.Bool.{false≢true}
use fredlib.Base.Int.{pos, ◌-ℤ◌, ltb_ℤ, -ℤ_pos, pos-injective}
use fredlib.Threading.Threads.{
  how_many, how_many-at_thread, how_many-map, how_many-every, how_many-zero, how_many-none,
}
use fredlib.Threading.SyncPoint.{
  Pc, outside, asleep, woken, passed, SyncPoint, wake, notify_all, new_sync_point, sync, recheck,
  Step, calls, wakes, tests, Reach, here, later, goes_to,
}

abbrev pub is_outside : Pc → Bool
is_outside outside = true
is_outside _ = false

-- The counter is the number of the threads that are yet to call `sync`; a thread has passed only if
-- there is none; a thread sleeps only if there is one.
pub record Inv (n : ℕ) (s : SyncPoint) : Type 0 where
  pub counted : s.expected ≡ pos (how_many is_outside n s.pc)
  pub held : (i : ℕ) → i < n → s.pc i ≡ passed → s.expected ≡ pos 0
  pub awake : (i : ℕ) → i < n → s.pc i ≡ asleep → s.expected ≢ pos 0

pub start-Inv : (n : ℕ) → Inv n (new_sync_point (pos n))
start-Inv n = record {
  counted = ground (arith, how_many-every is_outside n (λ _. outside) (λ i lt. refl));
  held = λ i lt e. cc;
  awake = λ i lt e. cc;
}

-- `sync` when `k` other threads are yet to call it.
sync-left :
    (i : ℕ) (s : SyncPoint) (k : ℕ)
    → s.expected ≡ pos (suc k)
    → sync i s ≡ (
        if k == 0
        then goes_to i passed (notify_all (record s { expected = pos k }))
        else goes_to i asleep (record s { expected = pos k }))
unfolding sync
sync-left i s k e =
    let left : s.expected -ℤ pos 1 ≡ pos k =
      ap (λ x. x -ℤ pos 1) e ∙ -ℤ_pos (suc k) 1 (omega arith) ∙ ap pos (omega arith) in
    rw left (ground arith)

module _ (n : ℕ) (s : SyncPoint) (i : ℕ) (lt : i < n) (e : s.pc i ≡ outside) (inv : Inv n s) where
  -- The last caller finds one thread outside, itself, and wakes the others.
  last-Inv :
      how_many is_outside n s.pc ≡ 1
      → Inv n (goes_to i passed (notify_all (record s { expected = pos 0 })))
  unfolding notify_all
  last-Inv one =
      let woke = how_many-map is_outside n s.pc wake (λ p. ground arith) in
      let left = how_many-at_thread is_outside n (λ j. wake (s.pc j)) i passed lt in
      record {
        counted = ground (arith, woke, left);
        held = λ j ltj q. refl;
        awake = λ j ltj q. absurd (ground arith);
      }

  other-Inv :
      (k : ℕ)
      → how_many is_outside n s.pc ≡ suc (suc k)
      → Inv n (goes_to i asleep (record s { expected = pos (suc k) }))
  other-Inv k more = record {
    counted = ground (arith, how_many-at_thread is_outside n s.pc i asleep lt);
    held = λ j ltj q. ground (arith, inv.held j ltj, inv.counted);
    awake = λ j ltj q. ground arith;
  }

  sync-Inv : Inv n (sync i s)
  sync-Inv = go (how_many is_outside n s.pc) refl
    where
      go : (m : ℕ) → how_many is_outside n s.pc ≡ m → Inv n (sync i s)
      go zero c =
          absurd (false≢true (sym (how_many-zero is_outside n s.pc i c lt) ∙ ap is_outside e))
      go (suc zero) c = rw (sync-left i s 0 (inv.counted ∙ ap pos c)) (last-Inv c)
      go (suc (suc k)) c =
          let more : (suc k == 0) ≡ false = ground arith in
          rw (sync-left i s (suc k) (inv.counted ∙ ap pos c), more) (other-Inv k c)

pub Step-Inv : {n : ℕ} {s t : SyncPoint} → Step n s t → Inv n s → Inv n t
unfolding recheck
Step-Inv {n} {s} (calls i lt e) inv = sync-Inv n s i lt e inv
Step-Inv {n} {s} (wakes i lt e) inv = record {
  counted = ground (arith, inv.counted, how_many-at_thread is_outside n s.pc i woken lt);
  held = λ j ltj q. ground (arith, inv.held j ltj);
  awake = λ j ltj q. ground (arith, inv.awake j ltj);
}
Step-Inv {n} {s} (tests i lt e) inv = record {
  counted = ground (
    arith,
    inv.counted,
    how_many-at_thread is_outside n s.pc i passed lt,
    how_many-at_thread is_outside n s.pc i asleep lt,
  );
  held = λ j ltj q. ground (arith, inv.held j ltj);
  awake = λ j ltj q. ground (arith, inv.awake j ltj);
}

pub Reach-Inv : {n : ℕ} {s : SyncPoint} → Reach n (new_sync_point (pos n)) s → Inv n s
Reach-Inv {n} here = start-Inv n
Reach-Inv (later r st) = Step-Inv st (Reach-Inv r)

pub Inv-barrier :
    {n : ℕ} {s : SyncPoint}
    → Inv n s
    → (i : ℕ) → i < n
    → s.pc i ≡ passed
    → (j : ℕ) → j < n
    → s.pc j ≢ outside
Inv-barrier {n} {s} inv i lti p j ltj out =
    let none_left : how_many is_outside n s.pc ≡ 0 =
      pos-injective (sym inv.counted ∙ inv.held i lti p) in
    false≢true (sym (how_many-zero is_outside n s.pc j none_left ltj) ∙ ap is_outside out)

-- In every state that `n` threads reach from a new `SyncPoint` of count `n`: if one of them has
-- returned from `sync`, each of them has called it.
pub sync-barrier :
    {n : ℕ} {s : SyncPoint}
    → Reach n (new_sync_point (pos n)) s
    → (i : ℕ) → i < n
    → s.pc i ≡ passed
    → (j : ℕ) → j < n
    → s.pc j ≢ outside
sync-barrier r = Inv-barrier (Reach-Inv r)

-- In every state that `n` threads reach from a new `SyncPoint` of count `n` in which each of them
-- has called `sync`: each has returned, or has been woken and returns when it tests the predicate.
-- No wake-up is lost.
pub sync-wakes :
    {n : ℕ} {s : SyncPoint}
    → Reach n (new_sync_point (pos n)) s
    → ((j : ℕ) → j < n → s.pc j ≢ outside)
    → (i : ℕ) → i < n
    → (s.pc i ≡ passed) ⊎ ((s.pc i ≡ woken) × ((recheck i s).pc i ≡ passed))
unfolding recheck
sync-wakes {n} {s} r all i lt = go (s.pc i) refl
  where
    inv : Inv n s
    inv = Reach-Inv r

    seen : (p : Pc) → p ≢ outside → is_outside p ≡ false
    seen outside h = absurd (h refl)
    seen asleep h = refl
    seen woken h = refl
    seen passed h = refl

    open_gate : s.expected ≡ pos 0
    open_gate =
        inv.counted ∙ ap pos (how_many-none is_outside n s.pc (λ j lj. seen (s.pc j) (all j lj)))

    go :
        (p : Pc)
        → s.pc i ≡ p
        → (s.pc i ≡ passed) ⊎ ((s.pc i ≡ woken) × ((recheck i s).pc i ≡ passed))
    go outside e = absurd (all i lt e)
    go asleep e = absurd (inv.awake i lt e open_gate)
    go woken e = inr (e, ground (arith, open_gate))
    go passed e = inl e

-- The counter below zero, and who may have passed.
abbrev Overrun : SyncPoint → SyncPoint → Type 0
Overrun s t = (ltb_ℤ t.expected (pos 0) ≡ true) × ((j : ℕ) → t.pc j ≡ passed → s.pc j ≡ passed)

Step-Overrun : (s : SyncPoint) {n : ℕ} {t u : SyncPoint} → Step n t u → Overrun s t → Overrun s u
unfolding sync recheck ◌-ℤ◌
Step-Overrun s {t} (calls i lt e) (low, old) = (ground arith, λ j q. ground (arith, old j))
Step-Overrun s {t} (wakes i lt e) (low, old) = (low, λ j q. ground (arith, old j))
Step-Overrun s {t} (tests i lt e) (low, old) = (ground arith, λ j q. ground (arith, old j))

Reach-Overrun : (s : SyncPoint) {n : ℕ} {t u : SyncPoint} → Overrun s t → Reach n t u → Overrun s u
Reach-Overrun s o here = o
Reach-Overrun s o (later r st) = Step-Overrun s st (Reach-Overrun s o r)

-- After a call of `sync` on a `SyncPoint` whose count is 0, by a thread that has not returned, no
-- thread that had not returned when the call was made returns in any state that the threads reach
-- by further calls and wake-ups.
pub sync-overrun :
    (s : SyncPoint) (i : ℕ) {n : ℕ} {t : SyncPoint}
    → s.expected ≡ pos 0
    → s.pc i ≢ passed
    → Reach n (sync i s) t
    → (j : ℕ) → s.pc j ≢ passed
    → t.pc j ≢ passed
unfolding sync ◌-ℤ◌
sync-overrun s i e ni r j nj q = nj ((Reach-Overrun s first r).1 j q)
  where
    first : Overrun s (sync i s)
    first = (ground arith, λ k p. ground arith)

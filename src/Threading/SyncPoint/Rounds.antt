-- ===== src/Threading/SyncPoint/Rounds.antt =====
-- include/threading.hpp, `class SyncPoint`, with all of its members: the object is used for one round after
-- another, and set up in between.
use mathlib.Core.Bool.{}
use fredlib.Base.{ℕ, ◌<◌, ◌≡◌, ap, ◌∙◌, ◌≢◌, arith}
use fredlib.Base.Int.{pos, ◌+ℤ◌, +ℤ_pos}
use fredlib.Threading.Threads.{how_many-none}
use fredlib.Threading.SyncPoint
use fredlib.Threading.SyncPoint.{
  outside, passed, SyncPoint, new_sync_point, initialize, add_thread, set_threadnum,
}
use fredlib.Threading.SyncPoint.Barrier.{is_outside, Inv, Inv-barrier, start-Inv, Step-Inv}

abbrev pub AllPassed : ℕ → SyncPoint → Type 0
AllPassed n s = (i : ℕ) → i < n → s.pc i ≡ passed

-- The threads go on to their next calls.
abbrev pub next_round : SyncPoint → SyncPoint
next_round s = record s { pc = λ _. outside }

-- A step within a round, or the set-up of the next round for `n` threads by one of the three members, once
-- each thread has returned.
pub data Step (n : ℕ) (s : SyncPoint) : SyncPoint → Type 0 where
  within : {t : SyncPoint} → SyncPoint.Step n s t → Step n s t
  initializes : AllPassed n s → Step n s (next_round (initialize (pos n) s))
  adds : AllPassed n s → Step n s (next_round (add_thread (pos n) s))
  sets : AllPassed n s → Step n s (next_round (set_threadnum (pos n) s))

pub data Reach (n : ℕ) (s : SyncPoint) : SyncPoint → Type 0 where
  here : Reach n s s
  later : {t u : SyncPoint} → Reach n s t → Step n t u → Reach n s u

-- With all threads back the count is 0.
used_up : (n : ℕ) (s : SyncPoint) → Inv n s → AllPassed n s → s.expected ≡ pos 0
used_up n s inv all =
    inv.counted ∙ ap pos (how_many-none is_outside n s.pc (λ i lt. ap is_outside (all i lt)))

round-Inv : {n : ℕ} {s t : SyncPoint} → Step n s t → Inv n s → Inv n t
unfolding initialize add_thread set_threadnum
round-Inv (within st) inv = Step-Inv st inv
round-Inv {n} (initializes all) inv = start-Inv n
round-Inv {n} {s} (adds all) inv = record {
  counted =
      ap (λ z. z +ℤ pos n) (used_up n s inv all)
      ∙ +ℤ_pos 0 n
      ∙ ap pos (omega arith)
      ∙ (start-Inv n).counted;
  held = λ i lt e. cc;
  awake = λ i lt e. cc;
}
round-Inv {n} (sets all) inv = start-Inv n

Reach-Inv : {n : ℕ} {s : SyncPoint} → Reach n (new_sync_point (pos n)) s → Inv n s
Reach-Inv {n} here = start-Inv n
Reach-Inv (later r st) = round-Inv st (Reach-Inv r)

-- In every state that `n` threads reach from a new `SyncPoint` of count `n` by rounds of calls of
-- `sync`, where `initialize`, `set_threadnum` or `add_thread` sets it up for `n` threads once each
-- has returned: if one of them has returned from `sync` in the present round, each of them has
-- called it in that round.
pub rounds-barrier :
    {n : ℕ} {s : SyncPoint}
    → Reach n (new_sync_point (pos n)) s
    → (i : ℕ) → i < n
    → s.pc i ≡ passed
    → (j : ℕ) → j < n
    → s.pc j ≢ outside
rounds-barrier r = Inv-barrier (Reach-Inv r)

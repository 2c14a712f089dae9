-- ===== src/Threading/SyncPoint.antt =====
-- include/threading.hpp, `class SyncPoint`: the object and the threads that call its members. Each
-- step is one critical section under `mSyncMutex`, with the waits on `mCvSync` spelled out.
pub mod Barrier
pub mod Rounds
use fredlib.Base.{ℕ, Bool, true, false, if◌then◌else◌, ◌≡◌, ◌<◌}
use fredlib.Base.Int.{ℤ, pos, negsuc, ◌+ℤ◌, ◌-ℤ◌, eq_ℤ}
use fredlib.Threading.Threads.{at_thread}

-- Where a thread stands with respect to one call of `sync`.
pub data Pc : Type 0 where
  outside : Pc  -- `sync` has not been called
  asleep : Pc  -- blocked in `mCvSync.wait`
  woken : Pc  -- woken, before it has the mutex again and tests the predicate
  passed : Pc  -- `sync` has returned

-- The object, with the threads.
pub record SyncPoint : Type 0 where
  pub expected : ℤ  -- mExpectedThreads
  pub pc : ℕ → Pc

-- `mCvSync.notify_all()`
abbrev pub wake : Pc → Pc
wake asleep = woken
wake p = p

unfoldable pub notify_all : SyncPoint → SyncPoint
notify_all s = record s { pc = λ i. wake (s.pc i) }

abbrev pub goes_to : ℕ → Pc → SyncPoint → SyncPoint
goes_to i p s = record s { pc = at_thread i p s.pc }

-- The constructor.
abbrev pub new_sync_point : ℤ → SyncPoint
new_sync_point expected = record { expected = expected; pc = λ _. outside }

-- `sync` up to its wait: the last of the expected threads wakes the others and goes on, any other
-- one goes to sleep, since the predicate fails.
unfoldable pub sync : ℕ → SyncPoint → SyncPoint
unfolding notify_all
sync i s =
    let left = s.expected -ℤ pos 1 in
    let s' = record s { expected = left } in
    if eq_ℤ left (pos 0) then goes_to i passed (notify_all s') else goes_to i asleep s'

-- A thread that was woken tests the predicate.
unfoldable pub recheck : ℕ → SyncPoint → SyncPoint
recheck i s = if eq_ℤ s.expected (pos 0) then goes_to i passed s else goes_to i asleep s

-- `initialize` and `set_threadnum`, and `add_thread`: none of them notifies.
unfoldable pub initialize : ℤ → SyncPoint → SyncPoint
initialize expected s = record s { expected = expected }

unfoldable pub set_threadnum : ℤ → SyncPoint → SyncPoint
set_threadnum num s = record s { expected = num }

unfoldable pub add_thread : ℤ → SyncPoint → SyncPoint
add_thread num s = record s { expected = s.expected +ℤ num }

-- One step of one of `n` threads that each call `sync` once. A wake-up may be spurious.
pub data Step (n : ℕ) (s : SyncPoint) : SyncPoint → Type 0 where
  calls : (i : ℕ) → i < n → s.pc i ≡ outside → Step n s (sync i s)
  wakes : (i : ℕ) → i < n → s.pc i ≡ asleep → Step n s (goes_to i woken s)
  tests : (i : ℕ) → i < n → s.pc i ≡ woken → Step n s (recheck i s)

pub data Reach (n : ℕ) (s : SyncPoint) : SyncPoint → Type 0 where
  here : Reach n s s
  later : {t u : SyncPoint} → Reach n s t → Step n t u → Reach n s u

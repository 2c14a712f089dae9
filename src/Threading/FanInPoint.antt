-- ===== src/Threading/FanInPoint.antt =====
-- include/threading.hpp, `class FanInPoint`: the object, the children that call `done` and the
-- threads that call `wait`. Each step is one critical section under `mFanInMutex`.
pub mod Gate
pub mod Members
use fredlib.Base.{ℕ, Bool, true, false, if◌then◌else◌, ◌≡◌, ◌<◌}
use fredlib.Base.Int.{ℤ, pos, ◌+ℤ◌, ◌-ℤ◌, eq_ℤ}
use fredlib.Threading.Threads.{at_thread}

-- Where a caller of `wait` stands.
pub data Waiter : Type 0 where
  outside : Waiter
  asleep : Waiter  -- blocked in `mCvFanIn.wait`
  woken : Waiter
  returned : Waiter

pub record FanInPoint : Type 0 where
  pub expected : ℤ  -- mExpectedThreads
  pub working : ℕ → Bool  -- the children that have not called `done`
  pub waiter : ℕ → Waiter

-- The constructor.
abbrev pub new_fan_in_point : ℤ → FanInPoint
new_fan_in_point expected = record {
  expected = expected;
  working = λ _. true;
  waiter = λ _. outside;
}

-- `mCvFanIn.notify_all()`
abbrev pub wake : Waiter → Waiter
wake asleep = woken
wake w = w

unfoldable pub notify_all : FanInPoint → FanInPoint
notify_all s = record s { waiter = λ j. wake (s.waiter j) }

abbrev pub waiter_to : ℕ → Waiter → FanInPoint → FanInPoint
waiter_to j w s = record s { waiter = at_thread j w s.waiter }

-- `done`, by child `i`
unfoldable pub done : ℕ → FanInPoint → FanInPoint
unfolding notify_all
done i s =
    notify_all (record s { expected = s.expected -ℤ pos 1; working = at_thread i false s.working })

-- `wait`, by thread `j`: the test of the predicate, when it is called and each time it is woken.
unfoldable pub wait : ℕ → FanInPoint → FanInPoint
wait j s = if eq_ℤ s.expected (pos 0) then waiter_to j returned s else waiter_to j asleep s

-- `add`, `add_thread`, `initialize` and `set_threadnum`: none of them notifies.
unfoldable pub add : FanInPoint → FanInPoint
add s = record s { expected = s.expected +ℤ pos 1 }

unfoldable pub add_thread : ℤ → FanInPoint → FanInPoint
add_thread num s = record s { expected = s.expected +ℤ num }

unfoldable pub initialize : ℤ → FanInPoint → FanInPoint
initialize expected s = record s { expected = expected }

unfoldable pub set_threadnum : ℤ → FanInPoint → FanInPoint
set_threadnum num s = record s { expected = num }

-- One step: of the `n` children each calls `done` once, and any thread may call `wait`, again and
-- again. `leaves` is the return to its caller.
pub data Step (n : ℕ) (s : FanInPoint) : FanInPoint → Type 0 where
  finishes : (i : ℕ) → i < n → s.working i ≡ true → Step n s (done i s)
  waits : (j : ℕ) → s.waiter j ≡ outside → Step n s (wait j s)
  wakes : (j : ℕ) → s.waiter j ≡ asleep → Step n s (waiter_to j woken s)
  tests : (j : ℕ) → s.waiter j ≡ woken → Step n s (wait j s)
  leaves : (j : ℕ) → s.waiter j ≡ returned → Step n s (waiter_to j outside s)

pub data Reach (n : ℕ) (s : FanInPoint) : FanInPoint → Type 0 where
  here : Reach n s s
  later : {t u : FanInPoint} → Reach n s t → Step n t u → Reach n s u

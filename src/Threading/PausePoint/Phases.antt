-- ===== src/Threading/PausePoint/Phases.antt =====
-- include/threading.hpp, `class PausePoint`, with all of its members: the number of workers changes while none
-- is paused.
use mathlib.Core.Bool.{false≢true}
use fredlib.Base.{
  ℕ, ◌+◌, ◌<◌, ◌≤◌, ◌≡◌, refl, sym, ap, ◌∙◌, ◌≢◌, subst, true, false, arith, ltb, Bool-cases, inl,
  inr,
}
use fredlib.Base.Int.{pos, ◌+ℤ◌, +ℤ_pos}
use fredlib.Threading.Threads.{how_many, how_many-zero, how_many-none}
use fredlib.Threading.PausePoint
use fredlib.Threading.PausePoint.{
  running, free, holding, PausePoint, new_pause_point, initialize, add_thread, set_threadnum,
  pause_if_required, recheck, notify_pause, notify_paused, pause, resume, pause_test, resume_test,
}
use fredlib.Threading.PausePoint.Invariant.{is_parked, MainFits, Inv, start-Inv, Step-Inv}
use fredlib.Threading.PausePoint.Handshake.{Inv-holds, unparked}

-- A step of the `n` workers and the main thread, or, before `pause` or after `resume` has returned, a change of
-- the number of workers by one of the three members.
pub data Step (n : ℕ) (s : PausePoint) : ℕ → PausePoint → Type 0 where
  within : {t : PausePoint} → PausePoint.Step n s t → Step n s n t
  initializes : (m : ℕ) → s.main ≡ free → Step n s m (initialize (pos m) s)
  adds : (k : ℕ) → s.main ≡ free → Step n s (n + k) (add_thread (pos k) s)
  sets : (m : ℕ) → s.main ≡ free → Step n s m (set_threadnum (pos m) s)

pub data Reach (n : ℕ) (s : PausePoint) : ℕ → PausePoint → Type 0 where
  here : Reach n s n s
  later : {m k : ℕ} {t u : PausePoint} → Reach n s m t → Step m t k u → Reach n s k u

-- No thread that is not a worker is in `pauseIfRequred`.
record Phase (n : ℕ) (s : PausePoint) : Type 0 where
  inv : Inv n s
  others : (i : ℕ) → n ≤ i → s.worker i ≡ running

within-others :
    {n : ℕ} {s t : PausePoint}
    → PausePoint.Step n s t
    → ((i : ℕ) → n ≤ i → s.worker i ≡ running)
    → (i : ℕ) → n ≤ i
    → t.worker i ≡ running
unfolding pause_if_required recheck notify_pause notify_paused pause resume pause_test resume_test
within-others (PausePoint.asks j lt e) run i le = ground (arith, run i le)
within-others (PausePoint.stirs j lt e) run i le = ground (arith, run i le)
within-others (PausePoint.tests j lt e) run i le = ground (arith, run i le)
within-others (PausePoint.pauses e) run i le = run i le
within-others (PausePoint.resumes e) run i le = ap PausePoint.wake (run i le)
within-others PausePoint.main_stirs run i le = run i le
within-others (PausePoint.pause_tests e) run i le = run i le
within-others (PausePoint.resume_tests e) run i le = run i le

module _ (n : ℕ) (s : PausePoint) (phase : Phase n s) (idle : s.main ≡ free) where
  at_rest : (s.pause ≡ false) × (how_many is_parked n s.worker ≡ 0)
  at_rest = subst (MainFits n (how_many is_parked n s.worker) s.pause) idle phase.inv.main_fits

  all-running : (i : ℕ) → s.worker i ≡ running
  all-running i = elim (Bool-cases (ltb i n)) [
    | inl low ↦
        unparked (s.worker i) (how_many-zero is_parked n s.worker i at_rest.1 (ground arith))
    | inr high ↦ phase.others i (ground arith)
  ]

  -- With no worker paused any other number of workers does.
  change-Phase : (m : ℕ) → Phase m (record s { paused = pos 0; expected = pos m })
  change-Phase m =
      let rest = how_many-none is_parked m s.worker (λ i lt. ap is_parked (all-running i)) in
      record {
        inv = record {
          counted = ap pos (sym rest);
          all = refl;
          main_fits =
              subst (MainFits m (how_many is_parked m s.worker) s.pause) (sym idle)
                (at_rest.0, rest);
          awake = λ i lt e. absurd (false≢true (ap is_parked (sym (all-running i) ∙ e)));
        };
        others = λ i le. all-running i;
      }

  -- The count of paused workers is 0 already.
  none_paused : s.paused ≡ pos 0
  none_paused = phase.inv.counted ∙ ap pos at_rest.1

  kept-Phase : (m : ℕ) → Phase m (record s { expected = pos m })
  kept-Phase m =
      subst (λ z. Phase m (record s { paused = z; expected = pos m })) (sym none_paused)
        (change-Phase m)

Step-Phase : {n m : ℕ} {s t : PausePoint} → Step n s m t → Phase n s → Phase m t
unfolding initialize add_thread set_threadnum
Step-Phase (within st) phase = record {
  inv = Step-Inv st phase.inv;
  others = within-others st phase.others;
}
Step-Phase {n} {s = s} (initializes m idle) phase = change-Phase n s phase idle m
Step-Phase {n} {s = s} (adds k idle) phase =
    subst (λ z. Phase (n + k) (record s { expected = z }))
      (sym (ap (λ z. z +ℤ pos k) phase.inv.all ∙ +ℤ_pos n k)) (kept-Phase n s phase idle (n + k))
Step-Phase {n} {s = s} (sets m idle) phase = kept-Phase n s phase idle m

Reach-Phase : {n m : ℕ} {s : PausePoint} → Reach n (new_pause_point (pos n)) m s → Phase m s
Reach-Phase {n} here = record { inv = start-Inv n; others = λ i le. refl }
Reach-Phase (later r st) = Step-Phase st (Reach-Phase r)

-- In every state that workers and a main thread reach from a new `PausePoint` whose count is the
-- number of workers, where `initialize`, `set_threadnum` or `add_thread` changes that number,
-- before the first `pause` or after `resume` has returned: when `pause` has returned, the pause
-- flag is set and no worker `i < m`, of the present number `m`, runs; each is parked in
-- `pauseIfRequred`.
pub phases-hold :
    {n m : ℕ} {s : PausePoint}
    → Reach n (new_pause_point (pos n)) m s
    → s.main ≡ holding
    → (i : ℕ) → i < m
    → (s.pause ≡ true) × (s.worker i ≢ running)
phases-hold r = Inv-holds (Reach-Phase r).inv

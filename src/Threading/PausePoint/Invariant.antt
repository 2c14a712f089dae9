-- ===== src/Threading/PausePoint/Invariant.antt =====
-- The invariant of include/threading.hpp's `PausePoint` with `n` workers: what the flag, the count and
-- the main thread's place say of each other.
use fredlib.Base.{
  ℕ, suc, ◌<◌, ◌≡◌, refl, sym, ap, ◌∙◌, ◌≢◌, subst, Bool-cases, Bool, true, false, if◌then◌else◌,
  arith, inl, inr,
}
use fredlib.Base.Int.{pos, ◌+ℤ◌, ◌-ℤ◌, -ℤ_pos, +ℤ_pos, eq_ℤ}
use fredlib.Threading.Threads.{
  bit, at_thread, how_many, how_many-at_thread, how_many-map, how_many-none, how_many-le,
}
use fredlib.Threading.PausePoint.{
  Worker, running, asleep, woken, Main, free, pausing_asleep, pausing_woken, holding,
  resuming_asleep, resuming_woken, PausePoint, new_pause_point, wake, wake_main, notify_paused,
  pause_if_required, recheck, pause_test, resume_test, pause, resume, Step, asks, stirs, tests,
  pauses, resumes, main_stirs, pause_tests, resume_tests, Reach, here, later,
}

-- A worker is parked from its count in `pauseIfRequred` to its uncount.
abbrev pub is_parked : Worker → Bool
is_parked running = false
is_parked asleep = true
is_parked woken = true

-- What the place of the main thread says of the flag, of the number `k` of the parked workers and of
-- the number `n` of all.
abbrev pub MainFits : (n k : ℕ) → Bool → Main → Type 0
MainFits n k b free = (b ≡ false) × (k ≡ 0)
MainFits n k b pausing_asleep = (b ≡ true) × (k ≢ n)
MainFits n k b pausing_woken = b ≡ true
MainFits n k b holding = (b ≡ true) × (k ≡ n)
MainFits n k b resuming_asleep = (b ≡ false) × (k ≢ 0)
MainFits n k b resuming_woken = b ≡ false

pub record Inv (n : ℕ) (s : PausePoint) : Type 0 where
  pub counted : s.paused ≡ pos (how_many is_parked n s.worker)
  pub all : s.expected ≡ pos n
  pub main_fits : MainFits n (how_many is_parked n s.worker) s.pause s.main
  pub awake : (i : ℕ) → i < n → s.worker i ≡ asleep → s.pause ≡ true

pub start-Inv : (n : ℕ) → Inv n (new_pause_point (pos n))
start-Inv n =
    let none_parked = how_many-none is_parked n (λ _. running) (λ i lt. refl) in
    record {
      counted = ap pos (sym none_parked);
      all = refl;
      main_fits = (refl, none_parked);
      awake = λ i lt e. cc;
    }

-- With the counter in line with the number `k`, the tests on the counter are tests on `k`.
pause-fits :
    (n k : ℕ) → MainFits n k true (if eq_ℤ (pos k) (pos n) then holding else pausing_asleep)
pause-fits n k = ground arith

resume-fits :
    (n k : ℕ) → MainFits n k false (if eq_ℤ (pos k) (pos 0) then free else resuming_asleep)
resume-fits n k = ground arith

-- A worker parks only while the flag is set, and leaves only while it is not.
park-fits :
    (n k : ℕ) (m : Main) → k < n → MainFits n k true m → MainFits n (suc k) true (wake_main m)
park-fits n k free lt f = ground arith
park-fits n k m lt f = ground arith

leave-fits : (n k : ℕ) (m : Main) → MainFits n (suc k) false m → MainFits n k false (wake_main m)
leave-fits n k free f = ground arith
leave-fits n k m f = ground arith

stir-fits : (n k : ℕ) (b : Bool) (m : Main) → MainFits n k b m → MainFits n k b (wake_main m)
stir-fits n k b free f = f
stir-fits n k b m f = ground arith

module _ (n : ℕ) (s : PausePoint) (i : ℕ) (lt : i < n) (inv : Inv n s) where
  abbrev parked : ℕ
  parked = how_many is_parked n s.worker

  asks-Inv : s.worker i ≡ running → Inv n (pause_if_required i s)
  unfolding pause_if_required
  asks-Inv e = elim (Bool-cases s.pause) [
    | inr clear ↦ simp clear inv
    | inl set ↦
        let one_more : how_many is_parked n (at_thread i asleep s.worker) ≡ suc parked =
          omega
            (arith, how_many-at_thread is_parked n s.worker i asleep lt, ap bit (ap is_parked e)) in
        let room : parked < n =
          omega (arith, one_more, how_many-le is_parked n (at_thread i asleep s.worker)) in
        rw set (record {
          counted =
              ap (λ x. x +ℤ pos 1) inv.counted ∙ +ℤ_pos parked 1 ∙ ap pos (omega (arith, one_more));
          all = inv.all;
          main_fits = rw one_more (park-fits n parked s.main room (rw set at inv.main_fits));
          awake = λ j lj q. refl;
        })
  ]

  stirs-Inv : s.worker i ≡ asleep → Inv n (record s { worker = at_thread i woken s.worker })
  stirs-Inv e =
      let same : how_many is_parked n (at_thread i woken s.worker) ≡ parked =
        omega
          (arith, how_many-at_thread is_parked n s.worker i woken lt, ap bit (ap is_parked e)) in
      record {
        counted = inv.counted ∙ ap pos (sym same);
        all = inv.all;
        main_fits = rw same inv.main_fits;
        awake = λ j lj q. inv.awake j lj (ground arith);
      }

  tests-Inv : s.worker i ≡ woken → Inv n (recheck i s)
  unfolding recheck
  tests-Inv e = elim (Bool-cases s.pause) [
    | inl set ↦
        let same : how_many is_parked n (at_thread i asleep s.worker) ≡ parked =
          omega
            (arith, how_many-at_thread is_parked n s.worker i asleep lt, ap bit (ap is_parked e)) in
        rw set (record {
          counted = inv.counted ∙ ap pos (sym same);
          all = inv.all;
          main_fits = rw same (rw set at inv.main_fits);
          awake = λ j lj q. refl;
        })
    | inr clear ↦
        let less : parked ≡ suc (how_many is_parked n (at_thread i running s.worker)) =
          omega (
            arith,
            how_many-at_thread is_parked n s.worker i running lt,
            ap bit (ap is_parked e),
          ) in
        rw clear (record {
          counted =
              ap (λ x. x -ℤ pos 1) inv.counted
              ∙ -ℤ_pos parked 1 (omega (arith, less))
              ∙ ap pos (omega (arith, less));
          all = inv.all;
          main_fits = leave-fits n _ s.main (rw (less, clear) at inv.main_fits);
          awake = λ j lj q. sym clear ∙ inv.awake j lj (ground arith);
        })
  ]

module _ (n : ℕ) (s : PausePoint) (inv : Inv n s) where
  pauses-Inv : Inv n (pause s)
  unfolding pause
  pauses-Inv = record {
    counted = inv.counted;
    all = inv.all;
    main_fits = rw (inv.counted, inv.all) (pause-fits n (how_many is_parked n s.worker));
    awake = λ j lj q. refl;
  }

  resumes-Inv : Inv n (resume s)
  unfolding resume
  resumes-Inv =
      let same = how_many-map is_parked n s.worker wake (λ w. ground arith) in
      record {
        counted = inv.counted ∙ ap pos (sym same);
        all = inv.all;
        main_fits = rw (same, inv.counted) (resume-fits n (how_many is_parked n s.worker));
        awake = λ j lj q. absurd (ground arith);
      }

  main_stirs-Inv : Inv n (notify_paused s)
  unfolding notify_paused
  main_stirs-Inv = record {
    counted = inv.counted;
    all = inv.all;
    main_fits = stir-fits n _ s.pause s.main inv.main_fits;
    awake = inv.awake;
  }

  pause_tests-Inv : s.main ≡ pausing_woken → Inv n (pause_test s)
  unfolding pause_test
  pause_tests-Inv e =
      let set : s.pause ≡ true =
        subst (MainFits n (how_many is_parked n s.worker) s.pause) e inv.main_fits in
      record {
        counted = inv.counted;
        all = inv.all;
        main_fits = rw (inv.counted, inv.all, set) (pause-fits n (how_many is_parked n s.worker));
        awake = inv.awake;
      }

  resume_tests-Inv : s.main ≡ resuming_woken → Inv n (resume_test s)
  unfolding resume_test
  resume_tests-Inv e =
      let clear : s.pause ≡ false =
        subst (MainFits n (how_many is_parked n s.worker) s.pause) e inv.main_fits in
      record {
        counted = inv.counted;
        all = inv.all;
        main_fits = rw (inv.counted, clear) (resume-fits n (how_many is_parked n s.worker));
        awake = inv.awake;
      }

pub Step-Inv : {n : ℕ} {s t : PausePoint} → Step n s t → Inv n s → Inv n t
Step-Inv {n} {s} (asks i lt e) inv = asks-Inv n s i lt inv e
Step-Inv {n} {s} (stirs i lt e) inv = stirs-Inv n s i lt inv e
Step-Inv {n} {s} (tests i lt e) inv = tests-Inv n s i lt inv e
Step-Inv {n} {s} (pauses e) inv = pauses-Inv n s inv
Step-Inv {n} {s} (resumes e) inv = resumes-Inv n s inv
Step-Inv {n} {s} main_stirs inv = main_stirs-Inv n s inv
Step-Inv {n} {s} (pause_tests e) inv = pause_tests-Inv n s inv e
Step-Inv {n} {s} (resume_tests e) inv = resume_tests-Inv n s inv e

pub Reach-Inv : {n : ℕ} {s : PausePoint} → Reach n (new_pause_point (pos n)) s → Inv n s
Reach-Inv {n} here = start-Inv n
Reach-Inv (later r st) = Step-Inv st (Reach-Inv r)

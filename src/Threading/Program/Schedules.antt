-- ===== src/Threading/Program/Schedules.antt =====
-- Runs of programs under a schedule.
use fredlib.Base.{
  ℕ, ◌≡◌, refl, Bool, true, false, Option, none, some, List, [], ◌∷◌, if◌then◌else◌, ltb, arith,
}
use fredlib.Threading.Program.{
  System, worker_step, thread_step, main_step, or_same, run, Step, works, main_works, Reach, here,
  later,
}
use fredlib.Threading.Program.Over.{Reach-append}

step-Reach :
    (me : ℕ) (s : System) (o : Option System)
    → ((t : System) → o ≡ some t → Step me s t)
    → Reach me s (or_same s o)
step-Reach me s none step = here
step-Reach me s (some t) step = later here (step t refl)

guarded-Step :
    (me i : ℕ) (s : System) (b : Bool)
    → ltb i s.started ≡ b
    → (t : System) → (if b then worker_step i s (s.code i) else none) ≡ some t
    → Step me s t
guarded-Step me i s true on t e = works i (ground arith) e
guarded-Step me i s false off t e = absurd cc

thread_step-Step : (me i : ℕ) (s : System) (t : System) → thread_step i s ≡ some t → Step me s t
unfolding thread_step
thread_step-Step me i s = guarded-Step me i s (ltb i s.started) refl

-- A run goes through states that the program reaches.
pub run-Reach : (me : ℕ) (ts : List (Option ℕ)) (s : System) → Reach me s (run me ts s)
unfolding run
run-Reach me [] s = here
run-Reach me (none ∷ ts) s =
    Reach-append (step-Reach me s (main_step me s s.main_code) (λ t e. main_works e))
      (run-Reach me ts _)
run-Reach me (some i ∷ ts) s =
    Reach-append (step-Reach me s (thread_step i s) (thread_step-Step me i s)) (run-Reach me ts _)

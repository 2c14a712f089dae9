-- ===== src/Examples/PoolDemo/Schedules.antt =====
-- Runs of `genericthreadpool_demo` of examples/threading.cpp under a schedule.
use fredlib.Base.{ℕ, ◌≡◌, refl, Option, none, some, List, [], ◌∷◌}
use fredlib.Examples.PoolDemo.{
  Demo, main_step, worker_step, or_same, run, Step, works, main_works, Reach, here, later,
}

Reach-append : {d t u : Demo} → Reach d t → Reach t u → Reach d u
Reach-append r here = r
Reach-append r (later q st) = later (Reach-append r q) st

step-Reach :
    (d : Demo) (o : Option Demo) → ((t : Demo) → o ≡ some t → Step d t) → Reach d (or_same d o)
step-Reach d none step = here
step-Reach d (some t) step = later here (step t refl)

-- A run goes through states that the demo reaches.
pub run-Reach : (ts : List (Option ℕ)) (d : Demo) → Reach d (run ts d)
unfolding run
run-Reach [] d = here
run-Reach (none ∷ ts) d =
    Reach-append (step-Reach d (main_step d d.code) (λ t e. main_works e)) (run-Reach ts _)
run-Reach (some i ∷ ts) d =
    Reach-append (step-Reach d (worker_step i d) (λ t e. works i e)) (run-Reach ts _)

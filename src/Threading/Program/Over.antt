-- ===== src/Threading/Program/Over.antt =====
-- A thread of a program that has ended stays so.
use mathlib.Core.Bool.{false≢true}
use fredlib.Base.{
  ℕ, ◌≡◌, refl, sym, ap, ◌∙◌, subst, Bool, true, false, Option, none, some, List, [], ◌∷◌,
  if◌then◌else◌, arith, ◌==◌, Bool-cases, inl, inr,
}
use fredlib.Threading.SyncPoint
use fredlib.Threading.PausePoint
use fredlib.Threading.Program.Main.{Same, main_step-Same}
use fredlib.Threading.Program.{
  WorkerOp, syncs, asks_pause, is_done, until_stop, pause_loop, loop_test, sleeps, writes_result,
  writes_arg, System, with_pause, goes, sync_section, pause_section, worker_section, worker_step,
  is_over, Step, works, main_works, sync_stirs, fan_stirs, pause_stirs, main_stirs, Reach, here,
  later,
}

-- What a step must do, if it is made.
abbrev StaysOver : ℕ → Option System → Type 0
StaysOver i none = Unit
StaysOver i (some t) = t.code i ≡ []

module _ (i : ℕ) (s : System) (over : s.code i ≡ []) where
  sync_section-over :
      (j : ℕ) (next : System → System) (p : SyncPoint.Pc)
      → (next s).code i ≡ []
      → StaysOver i (sync_section j next s p)
  unfolding sync_section
  sync_section-over j next SyncPoint.outside e = over
  sync_section-over j next SyncPoint.asleep e = tt
  sync_section-over j next SyncPoint.woken e = over
  sync_section-over j next SyncPoint.passed e = e

  goes-over : (j : ℕ) (r : List WorkerOp) → (j == i) ≡ false → (goes j r s).code i ≡ []
  goes-over j r far = ground (arith, over)

  pause_section-over :
      (j : ℕ) (r : List WorkerOp) (w : PausePoint.Worker)
      → (j == i) ≡ false
      → StaysOver i (pause_section j (goes j r) s w)
  unfolding pause_section
  pause_section-over j r PausePoint.asleep far = tt
  pause_section-over j r PausePoint.running far = either s.control.pause_point.pause
    where
      either :
          (b : Bool)
          → StaysOver i (
              some (
                if b
                then with_pause (PausePoint.pause_if_required j) s
                else goes j r (with_pause (PausePoint.pause_if_required j) s)))
      either true = over
      either false = goes-over j r far
  pause_section-over j r PausePoint.woken far = either s.control.pause_point.pause
    where
      either :
          (b : Bool)
          → StaysOver i (
              some (
                if b
                then with_pause (PausePoint.recheck j) s
                else goes j r (with_pause (PausePoint.recheck j) s)))
      either true = over
      either false = goes-over j r far

  worker_section-over :
      (j : ℕ) (op : WorkerOp) (r : List WorkerOp)
      → (j == i) ≡ false
      → StaysOver i (worker_section op r j s)
  unfolding worker_section
  worker_section-over j syncs r far =
      sync_section-over j (goes j r) (s.control.sync_point.pc j) (goes-over j r far)
  worker_section-over j asks_pause r far =
      pause_section-over j r (s.control.pause_point.worker j) far
  worker_section-over j is_done r far = goes-over j r far
  worker_section-over j until_stop r far = either s.control.stopper
    where
      either : (b : Bool) → StaysOver i (some (if b then goes j r s else s))
      either true = goes-over j r far
      either false = over
  worker_section-over j pause_loop r far =
      pause_section-over j (loop_test ∷ r) (s.control.pause_point.worker j) far
  worker_section-over j loop_test r far = goes-over j _ far
  worker_section-over j sleeps r far = goes-over j r far
  worker_section-over j (writes_result b) r far = goes-over j r far
  worker_section-over j (writes_arg k) r far = goes-over j r far

  worker_step-over : (j : ℕ) (l : List WorkerOp) → s.code j ≡ l → StaysOver i (worker_step j s l)
  unfolding worker_step
  worker_step-over j [] e = tt
  worker_step-over j (op ∷ r) e = elim (Bool-cases (j == i)) [
    | inl same ↦
        let equal : j ≡ i = ground arith in
        absurd (false≢true (ap is_over (sym e ∙ ap s.code equal ∙ over)))
    | inr far ↦ worker_section-over j op r far
  ]

pub Step-over : (me : ℕ) {s t : System} → Step me s t → (i : ℕ) → s.code i ≡ [] → t.code i ≡ []
Step-over me {s} (works j lt e) i over =
    subst (StaysOver i) e (worker_step-over i s over j (s.code j) refl)
Step-over me {s} (main_works e) i over =
    ap (λ c. c i) (subst (Same s) e (main_step-Same s me s.main_code)).0 ∙ over
Step-over me (sync_stirs j w e) i over = ap (λ u. u.code i) e ∙ over
Step-over me (fan_stirs j w e) i over = ap (λ u. u.code i) e ∙ over
Step-over me (pause_stirs j lt w e) i over = ap (λ u. u.code i) e ∙ over
Step-over me (main_stirs e) i over = ap (λ u. u.code i) e ∙ over

pub Reach-over : (me : ℕ) {s t : System} → Reach me s t → (i : ℕ) → s.code i ≡ [] → t.code i ≡ []
Reach-over me here i over = over
Reach-over me (later r st) i over = Step-over me st i (Reach-over me r i over)

pub Reach-append : {me : ℕ} {s t u : System} → Reach me s t → Reach me t u → Reach me s u
Reach-append r here = r
Reach-append r (later q st) = later (Reach-append r q) st

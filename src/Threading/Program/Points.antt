-- ===== src/Threading/Program/Points.antt =====
-- Every program of include/threading.hpp's control points drives them by their own steps.
use fredlib.Base.{
  ℕ, suc, ◌+◌, ◌<◌, ◌≤◌, ◌≡◌, sym, ap, ◌∙◌, subst, Bool, true, false, Option, none, some, List, [],
  ◌∷◌, arith,
}
use fredlib.Threading.Threads.{bit}
use fredlib.Threading.SyncPoint
use fredlib.Threading.FanInPoint
use fredlib.Threading.PausePoint
use fredlib.Threading.PausePoint.Invariant.{is_parked}
use fredlib.Threading.ThreadControl.{ThreadControl}
use fredlib.Threading.Program.{
  WorkerOp, asks_pause, is_done, pause_loop, MainOp, starts, System, with_sync, with_fan,
  with_pause, goes, sync_section,
}

-- The statements in which a thread may be parked.
abbrev pub in_pause : List WorkerOp → Bool
in_pause (asks_pause ∷ r) = true
in_pause (pause_loop ∷ r) = true
in_pause r = false

-- How often a thread will call `done`.
unfoldable pub dones : List WorkerOp → ℕ
dones [] = 0
dones (is_done ∷ r) = suc (dones r)
dones (op ∷ r) = dones r

-- How many threads the main thread will start.
unfoldable pub to_start : List MainOp → ℕ
to_start [] = 0
to_start (starts k ∷ r) = k + to_start r
to_start (op ∷ r) = to_start r

-- `n` bounds the threads, and `c` is the control at the start.
pub record Inv (n : ℕ) (c : ThreadControl) (s : System) : Type 0 where
  pub pausing : PausePoint.Reach n c.pause_point s.control.pause_point
  pub fanning : FanInPoint.Reach n c.fan_in_point s.control.fan_in_point
  pub room : s.started + to_start s.main_code ≤ n
  pub parked :
      (i : ℕ) → is_parked (s.control.pause_point.worker i) ≡ true → in_pause (s.code i) ≡ true
  pub once : (i : ℕ) → dones (s.code i) ≤ bit (s.control.fan_in_point.working i)

-- What a step must do: if it is made, it keeps the invariant.
abbrev pub Keeps : (n : ℕ) (c : ThreadControl) → Option System → Type 0
Keeps n c none = Unit
Keeps n c (some t) = Inv n c t

module _ (n : ℕ) (c : ThreadControl) (s : System) (inv : Inv n c s) where
  pub goes-Inv :
      (i : ℕ) (r : List WorkerOp)
      → is_parked (s.control.pause_point.worker i) ≡ false
      → dones r ≤ bit (s.control.fan_in_point.working i)
      → Inv n c (goes i r s)
  goes-Inv i r awake few = record {
    pausing = inv.pausing;
    fanning = inv.fanning;
    room = inv.room;
    parked = λ j q. ground (arith, inv.parked j);
    once = λ j. ground (arith, inv.once j);
  }

  pub asks-Inv :
      (i : ℕ)
      → i < n
      → s.control.pause_point.worker i ≡ PausePoint.running
      → in_pause (s.code i) ≡ true
      → Inv n c (with_pause (PausePoint.pause_if_required i) s)
  unfolding PausePoint.pause_if_required PausePoint.notify_paused
  asks-Inv i lt w p = record {
    pausing = PausePoint.later inv.pausing (PausePoint.asks i lt w);
    fanning = inv.fanning;
    room = inv.room;
    parked = λ j q. ground (arith, inv.parked j);
    once = inv.once;
  }

  pub rechecks-Inv :
      (i : ℕ)
      → i < n
      → s.control.pause_point.worker i ≡ PausePoint.woken
      → Inv n c (with_pause (PausePoint.recheck i) s)
  unfolding PausePoint.recheck PausePoint.notify_paused
  rechecks-Inv i lt w =
      let p : in_pause (s.code i) ≡ true = inv.parked i (ap is_parked w) in
      record {
        pausing = PausePoint.later inv.pausing (PausePoint.tests i lt w);
        fanning = inv.fanning;
        room = inv.room;
        parked = λ j q. ground (arith, inv.parked j);
        once = inv.once;
      }

  -- A step of the pause point at which no thread moves.
  pub pauses-Inv :
      (f : PausePoint.PausePoint → PausePoint.PausePoint)
      → PausePoint.Step n s.control.pause_point (f s.control.pause_point)
      → ((j : ℕ)
          → is_parked ((f s.control.pause_point).worker j)
            ≡ is_parked (s.control.pause_point.worker j))
      → Inv n c (with_pause f s)
  pauses-Inv f st same = record {
    pausing = PausePoint.later inv.pausing st;
    fanning = inv.fanning;
    room = inv.room;
    parked = λ j q. inv.parked j (sym (same j) ∙ q);
    once = inv.once;
  }

  pub fans-Inv :
      (f : FanInPoint.FanInPoint → FanInPoint.FanInPoint)
      → FanInPoint.Step n s.control.fan_in_point (f s.control.fan_in_point)
      → ((j : ℕ) → (f s.control.fan_in_point).working j ≡ s.control.fan_in_point.working j)
      → Inv n c (with_fan f s)
  fans-Inv f st same = record {
    pausing = inv.pausing;
    fanning = FanInPoint.later inv.fanning st;
    room = inv.room;
    parked = inv.parked;
    once = λ j. subst (λ b. dones (s.code j) ≤ bit b) (sym (same j)) (inv.once j);
  }

  pub done-Inv :
      (i : ℕ) (r : List WorkerOp)
      → i < n
      → s.code i ≡ is_done ∷ r
      → Inv n c (goes i r (with_fan (FanInPoint.done i) s))
  unfolding dones FanInPoint.done FanInPoint.notify_all
  done-Inv i r lt e =
      let few : suc (dones r) ≤ bit (s.control.fan_in_point.working i) =
        subst (λ l. dones l ≤ bit (s.control.fan_in_point.working i)) e (inv.once i) in
      let work : s.control.fan_in_point.working i ≡ true = ground arith in
      record {
        pausing = inv.pausing;
        fanning = FanInPoint.later inv.fanning (FanInPoint.finishes i lt work);
        room = inv.room;
        parked = λ j q. ground (arith, inv.parked j, ap in_pause e);
        once = λ j. ground (arith, inv.once j);
      }

  -- A change that neither the points for pauses and for fan-in nor the code see.
  pub syncs-Inv : (f : SyncPoint.SyncPoint → SyncPoint.SyncPoint) → Inv n c (with_sync f s)
  syncs-Inv f = record {
    pausing = inv.pausing;
    fanning = inv.fanning;
    room = inv.room;
    parked = inv.parked;
    once = inv.once;
  }

  pub sync_section-Keeps :
      (i : ℕ) (next : System → System) (p : SyncPoint.Pc)
      → Inv n c (next s)
      → Keeps n c (sync_section i next s p)
  unfolding sync_section
  sync_section-Keeps i next SyncPoint.outside done = syncs-Inv (SyncPoint.sync i)
  sync_section-Keeps i next SyncPoint.asleep done = tt
  sync_section-Keeps i next SyncPoint.woken done = syncs-Inv (SyncPoint.recheck i)
  sync_section-Keeps i next SyncPoint.passed done = done

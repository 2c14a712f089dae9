-- ===== src/Threading/ThreadPool/OnHeap/Controls.antt =====
-- The steps of include/threading.hpp's `GenericThreadPool` that do not touch the queue, beside those
-- of the pool whose queue is a sequence.
use mathlib.Core.Bool.{false≢true}
use fredlib.Base.{
  ℕ, ◌≡◌, refl, sym, ap, ◌∙◌, Bool, true, false, if◌then◌else◌, Bool-cases, inl, inr,
}
use fredlib.SafeList.Heap.{Ptr}
use fredlib.Threading.Threads.{at_thread}
use fredlib.Threading.ThreadControl.{ThreadControl}
use fredlib.Threading.PausePoint.Invariant.{is_parked}
use fredlib.Threading.ThreadPool.Moves.{Reach-Inv, Reach-append}
use fredlib.Threading.ThreadPool
use fredlib.Threading.ThreadPool.{
  Place, top, checking, taking, working, leaving, finished, ThreadPool, new_thread_pool, ask_pause,
  recheck_pause, check_stop, leave, stop,
}
use fredlib.Threading.ThreadPool.OnHeap.{HeapPool, frame, with_frame, is_control}
use fredlib.Threading.ThreadPool.OnHeap.Shadow.{is_working, abstracted, Shadow}
use fredlib.Threading.ThreadPool.OnHeap.Workers.{move-Alike, move-Kept}

free_if :
    (b : Bool) (x y : Place)
    → is_working x ≡ false
    → is_working y ≡ false
    → is_working (if b then x else y) ≡ false
free_if true x y e f = e
free_if false x y e f = f

working_of : (x : Place) → is_working x ≡ true → (obj : Ptr) × (x ≡ working obj)
working_of (working obj) e = (obj, refl)
working_of top e = absurd (false≢true e)
working_of checking e = absurd (false≢true e)
working_of taking e = absurd (false≢true e)
working_of leaving e = absurd (false≢true e)
working_of finished e = absurd (false≢true e)

module _ (offset n : ℕ) (origin : ThreadPool)
    (begun : ThreadPool.Reach n (new_thread_pool n) origin) (p : HeapPool)
    (s : Shadow offset n origin p) where
  abbrev seen : ThreadPool
  seen = abstracted p s.places s.queue

  at : (i : ℕ) (x : Place) → is_working x ≡ false → p.place i ≡ x → s.places i ≡ x
  at i x free e = s.alike.idle i (ap is_working e ∙ free) ∙ e

  -- The same step of the pool with a sequence, after which a worker stands at `x`, or none has moved.
  moved :
      (i : ℕ) (x : Place) (c : ThreadControl)
      → is_working x ≡ false
      → is_working (p.place i) ≡ false
      → ThreadPool.Step n seen (record seen { control = c; place = at_thread i x s.places })
      → Shadow offset n origin (record p { control = c; place = at_thread i x p.place })
  moved i x c free was st = record {
    places = at_thread i x s.places;
    queue = s.queue;
    reach = ThreadPool.later s.reach st;
    owned = s.owned;
    alike = move-Alike offset p.elements s.queue p.place s.places s.alike i x free;
    kept = move-Kept p.elements s.queue p.place i x was s.kept;
  }

  stayed :
      (c : ThreadControl)
      → ThreadPool.Step n seen (record seen { control = c })
      → Shadow offset n origin (record p { control = c })
  stayed c st = record {
    places = s.places;
    queue = s.queue;
    reach = ThreadPool.later s.reach st;
    owned = s.owned;
    alike = s.alike;
    kept = s.kept;
  }

  -- A parked worker holds no element.
  parked-free :
      (i : ℕ) → is_parked (p.control.pause_point.worker i) ≡ true → is_working (p.place i) ≡ false
  parked-free i parked = elim (Bool-cases (is_working (p.place i))) [
    | inl busy ↦
        let (obj, e) = working_of (p.place i) busy in
        let (t, works, _) = s.alike.busy i obj e in
        absurd (
          false≢true (
            ap is_working (sym ((Reach-Inv (Reach-append begun s.reach)).parked i parked) ∙ works)))
    | inr free ↦ free
  ]

  pub controls-Shadow :
      {f : ThreadPool} (st : ThreadPool.Step n (frame p) f)
      → is_control st ≡ true
      → Shadow offset n origin (with_frame p f)
  unfolding ask_pause recheck_pause check_stop leave stop
  controls-Shadow (ThreadPool.asks i lt e w) c =
      moved i _ _ (free_if p.control.pause_point.pause top checking refl refl) (ap is_working e)
        (ThreadPool.asks i lt (at i top refl e) w)
  controls-Shadow (ThreadPool.stirs i lt w) c = stayed _ (ThreadPool.stirs i lt w)
  controls-Shadow (ThreadPool.rechecks i lt w) c =
      moved i _ _ (free_if p.control.pause_point.pause top checking refl refl)
        (parked-free i (ap is_parked w)) (ThreadPool.rechecks i lt w)
  controls-Shadow (ThreadPool.checks i lt e) c =
      moved i _ _ (free_if p.control.stopper leaving taking refl refl) (ap is_working e)
        (ThreadPool.checks i lt (at i checking refl e))
  controls-Shadow (ThreadPool.leaves i lt e) c =
      moved i finished _ refl (ap is_working e) (ThreadPool.leaves i lt (at i leaving refl e))
  controls-Shadow ThreadPool.stops c = stayed _ ThreadPool.stops
  controls-Shadow (ThreadPool.waits j e) c = stayed _ (ThreadPool.waits j e)
  controls-Shadow (ThreadPool.wakes j e) c = stayed _ (ThreadPool.wakes j e)
  controls-Shadow (ThreadPool.waits_on j e) c = stayed _ (ThreadPool.waits_on j e)
  controls-Shadow (ThreadPool.pauses e) c = stayed _ (ThreadPool.pauses e)
  controls-Shadow (ThreadPool.resumes e) c = stayed _ (ThreadPool.resumes e)
  controls-Shadow ThreadPool.main_stirs c = stayed _ ThreadPool.main_stirs
  controls-Shadow (ThreadPool.pause_tests e) c = stayed _ (ThreadPool.pause_tests e)
  controls-Shadow (ThreadPool.resume_tests e) c = stayed _ (ThreadPool.resume_tests e)
  controls-Shadow (ThreadPool.takes i lt e) c = absurd (false≢true c)
  controls-Shadow (ThreadPool.ends i task lt e) c = absurd (false≢true c)
  controls-Shadow (ThreadPool.pushes task) c = absurd (false≢true c)

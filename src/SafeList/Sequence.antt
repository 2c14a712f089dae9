-- ===== src/SafeList/Sequence.antt =====
-- `pop_front` and `pop_back` refine the removal of the first and of the last element, and sequences
-- of calls refine sequences of calls.
use fredlib.Base.{
  Bool-cases, ℕ, ◌≡◌, refl, inl, inr, ap, Bool, not, ◌||◌, List, [], ◌∷◌, ◌++◌, arith, ◌==◌,
  last_or,
}
use mathlib.Core.Bool.{false≢true}
use mathlib.Core.List.{append-nil}
use mathlib.Core.Path.{ap₂, sym, subst}
use fredlib.SafeList.Heap.{Ptr, Heap}
use fredlib.SafeList.Ops.{SafeList}
use fredlib.SafeList.Returns
use fredlib.SafeList.Returns.{Returns, returns}
use fredlib.SafeList.View.{IsList}
use fredlib.SafeList.Remove.{pop_front-first, pop_back-last, pop-waits, pop-expires}
use fredlib.SafeList.World.{World, World-Shrunk}
use fredlib.SafeList.Refine.{
  Refines, pushes_back-Refines, pushes_front-Refines, erases-Refines, inserts-Refines,
}
use fredlib.SafeList.Deque.{
  Call, inserts, erases, pushes_back, pushes_front, pops_front, pops_back, Reply, got, exec,
  exec_all, but_last, spec, spec_all, Allowed, AllAllowed,
}

-- A call on an empty list that may wait.
module _ (pool : List Ptr) (h : Heap) (l : SafeList) (thread timeout : ℕ) (expired : Bool)
    (w : World pool h l []) where
  sleeping : SafeList
  sleeping = record l { asleep = thread ∷ l.asleep }

  World-sleeping : World pool h sleeping []
  unfolding sleeping
  World-sleeping = record {
    view = record {
      chain = tt;
      distinct = tt;
      head = w.view.head;
      tail = w.view.tail;
      size = w.view.size;
      awake = λ e. absurd (false≢true (sym e));
    };
    rest = w.rest;
    alive = w.alive;
  }

  pops_empty :
      Returns
        (Refines pool (pops_front thread timeout expired) [])
        (exec (pops_front thread timeout expired) l h)
      × Returns
          (Refines pool (pops_back thread timeout expired) [])
          (exec (pops_back thread timeout expired) l h)
  unfolding exec spec sleeping
  pops_empty = elim (Bool-cases ((timeout == 0) || not expired)) [
    | inl waits ↦
        let (e, f) = pop-waits h l thread timeout expired w.view (ground arith) in
        (
          rw e (returns (rw waits (refl, World-sleeping))),
          rw f (returns (rw waits (refl, World-sleeping))),
        )
    | inr ends ↦
        let (e, f) = pop-expires h l thread timeout expired w.view (ground arith) (ground arith) in
        (rw e (returns (rw ends (refl, w))), rw f (returns (rw ends (refl, w))))
  ]

pub pops_front-Refines :
    (pool : List Ptr) (h : Heap) (l : SafeList) (xs : List Ptr) (thread timeout : ℕ)
    (expired : Bool)
    → World pool h l xs
    → Returns
        (Refines pool (pops_front thread timeout expired) xs)
        (exec (pops_front thread timeout expired) l h)
unfolding exec spec
pops_front-Refines pool h l [] thread timeout expired w =
    (pops_empty pool h l thread timeout expired w).0
pops_front-Refines pool h l (x ∷ xs) thread timeout expired w =
    Returns.then (pop_front-first h l thread timeout expired x xs w.view)
      λ _ g (e, s). returns (ap got e, World-Shrunk pool h l (x ∷ xs) w [] x xs g _ refl s)

but_last-snoc : (x : Ptr) (xs : List Ptr) → x ∷ xs ≡ but_last x xs ++ last_or x xs ∷ []
unfolding but_last
but_last-snoc x [] = refl
but_last-snoc x (y ∷ ys) = ap {B = List Ptr} (λ r. x ∷ r) (but_last-snoc y ys)

pub pops_back-Refines :
    (pool : List Ptr) (h : Heap) (l : SafeList) (xs : List Ptr) (thread timeout : ℕ)
    (expired : Bool)
    → World pool h l xs
    → Returns
        (Refines pool (pops_back thread timeout expired) xs)
        (exec (pops_back thread timeout expired) l h)
unfolding exec spec
pops_back-Refines pool h l [] thread timeout expired w =
    (pops_empty pool h l thread timeout expired w).1
pops_back-Refines pool h l (x ∷ xs) thread timeout expired w =
    let split = but_last-snoc x xs in
    Returns.then
      (pop_back-last h l thread timeout expired (but_last x xs) (last_or x xs)
        (subst (IsList h l) split w.view))
      λ _ g (e, s). returns (
        ap got e,
        rw append-nil at
            (World-Shrunk pool h l (x ∷ xs) w (but_last x xs) (last_or x xs) [] g _ split s),
      )

-- Every call that its caller may make answers as the sequence prescribes, and keeps the world.
pub exec-Refines :
    (pool : List Ptr) (h : Heap) (l : SafeList) (xs : List Ptr) (c : Call)
    → World pool h l xs
    → Allowed pool xs c
    → Returns (Refines pool c xs) (exec c l h)
exec-Refines pool h l xs (inserts existing new) w may =
    inserts-Refines pool h l xs existing new w may
exec-Refines pool h l xs (erases node) w may = erases-Refines pool h l xs w node may
exec-Refines pool h l xs (pushes_back new) w may = pushes_back-Refines pool h l xs w new may
exec-Refines pool h l xs (pushes_front new) w may = pushes_front-Refines pool h l xs w new may
exec-Refines pool h l xs (pops_front t n b) w may = pops_front-Refines pool h l xs t n b w
exec-Refines pool h l xs (pops_back t n b) w may = pops_back-Refines pool h l xs t n b w

-- Every sequence of calls of `insert`, `erase`, `push_back`, `push_front`, `pop_front` and
-- `pop_back`, made on a well-formed list of `xs` over a pool of live hooks, of which those outside
-- the list are clean, where each call is allowed (a hook that is put in is null or one of the pool
-- that is not linked; a position is null, in the list, or the list is empty; a hook to erase is
-- null or in the list), runs without a fault, gives the replies that the same calls give on the
-- plain sequence `xs`, and leaves a well-formed list of the sequence that they leave, with every
-- other hook clean.
pub exec_all-refines :
    (pool : List Ptr) (h : Heap) (l : SafeList) (xs : List Ptr) (cs : List Call)
    → World pool h l xs
    → AllAllowed pool xs cs
    → Returns
        (λ (rs, l') g. (rs ≡ (spec_all cs xs).0) × World pool g l' (spec_all cs xs).1)
        (exec_all cs l h)
unfolding exec_all spec_all
exec_all-refines pool h l xs [] w may = returns (refl, w)
exec_all-refines pool h l xs (c ∷ cs) w may =
    Returns.then (exec-Refines pool h l xs c w may.0) λ (r, l') g (e, w').
      Returns.then (exec_all-refines pool g l' (spec c xs).1 cs w' may.1)
        λ (rs, l'') k (es, w''). returns (ap₂ {C = List Reply} ◌∷◌ e es, w'')

-- ===== src/SafeList/Returns.antt =====
-- Total correctness of an action: it ends without a fault, and its result and the heap that it
-- leaves meet a condition.
use fredlib.SafeList.Heap.{Heap, Outcome, ok, Action, proceed}

pub data Returns {R : Type 0} (Post : R → Heap → Type 0) : Outcome R → Type 0 where
  returns : {result : R} {left : Heap} → Post result left → Returns Post (ok result left)

module _ {R S : Type 0} {Mid : R → Heap → Type 0} {Post : S → Heap → Type 0} where
  -- An action that goes on with the result of another one.
  pub then :
      {first : Outcome R} {next : R → Action S}
      → Returns Mid first
      → ((result : R) (left : Heap) → Mid result left → Returns Post (next result left))
      → Returns Post (proceed first next)
  then (returns {result} {left} mid) rest = rest result left mid

  -- The same one step further in.
  pub then_then :
      {Between : Type 0} {first : Outcome R} (next : R → Action Between) (last : Between → Action S)
      → Returns Mid first
      → ((result : R) (left : Heap)
          → Mid result left
          → Returns Post (proceed (next result left) last))
      → Returns Post (proceed (proceed first next) last)
  then_then next last (returns {result} {left} mid) rest = rest result left mid

module _ {R : Type 0} {Strong Post : R → Heap → Type 0} where
  pub weaken :
      {first : Outcome R}
      → Returns Strong first
      → ((result : R) (left : Heap) → Strong result left → Post result left)
      → Returns Post first
  weaken (returns {result} {left} strong) f = returns (f result left strong)

-- ===== src/SafeList/ObjectCalls/Hooks.antt =====
-- The calls of `SafeList` that an `IntrusiveSafeList` of include/safe_list.hpp makes, and the hooks of its objects.
use fredlib.Base.{
  ℕ, ◌<◌, ◌≡◌, refl, sym, ap, ◌∙◌, Bool, true, false, List, [], ◌∷◌, ◌==◌, ==_iff, arith, has,
  last_or, Bool-cases, inl, inr,
}
use mathlib.Core.Bool.{false≢true}
use fredlib.SafeList.Heap.{Ptr, Heap, Action, pure, Outcome, ok, fault, proceed}
use fredlib.SafeList.Ops
use fredlib.SafeList.Ops.{SafeList, Popped, blocked, popped}
use fredlib.SafeList.Intrusive
use fredlib.SafeList.Intrusive.{u64_mod, IntrusiveSafeList, get_hook, get_parent, parent_of}
use fredlib.SafeList.Objects.{hooks, AllBelow, get_parent-get_hook}
use fredlib.SafeList.Deque.{
  Call, pushes_back, pushes_front, pops_front, pops_back, Reply, done, got, exec, but_last, Allowed,
}
use fredlib.SafeList.ObjectCalls.{
  ObjectCall, adds_back, adds_front, takes_front, takes_back, exec_object, ObjectAllowed,
  ObjectWorld,
}

-- The call of `SafeList` that a member makes, and what the member returns.
abbrev pub hook_call : (offset : ℕ) → ObjectCall → Call
hook_call f (adds_back obj) = pushes_back (get_hook f obj)
hook_call f (adds_front obj) = pushes_front (get_hook f obj)
hook_call f (takes_front thread timeout expired) = pops_front thread timeout expired
hook_call f (takes_back thread timeout expired) = pops_back thread timeout expired

abbrev pub object_reply : (offset : ℕ) → Reply → Reply
object_reply f (done b) = done b
object_reply f (got p) = got (parent_of f p)

abbrev pub over_base : IntrusiveSafeList → Reply × SafeList → Action (Reply × IntrusiveSafeList)
over_base l (r, b) = pure (object_reply l.offset r, record l { base = b })

done_through :
    (l : IntrusiveSafeList) (o : Outcome (Bool × SafeList))
    → proceed
        (proceed o (λ r. pure {R = Bool × IntrusiveSafeList} (r.0, record l { base = r.1 })))
        (λ r. pure {R = Reply × IntrusiveSafeList} (done r.0, r.1))
      ≡ proceed (proceed o (λ r. pure {R = Reply × SafeList} (done r.0, r.1))) (over_base l)
done_through l fault = refl
done_through l (ok r g) = refl

got_through :
    (l : IntrusiveSafeList) (o : Outcome (Popped × SafeList))
    → proceed
        (proceed o (λ r.
          pure {R = Popped × IntrusiveSafeList} (parent_of l.offset r.0, record l { base = r.1 })))
        (λ r. pure {R = Reply × IntrusiveSafeList} (got r.0, r.1))
      ≡ proceed (proceed o (λ r. pure {R = Reply × SafeList} (got r.0, r.1))) (over_base l)
got_through l fault = refl
got_through l (ok r g) = refl

pub exec_object-exec :
    (c : ObjectCall) (l : IntrusiveSafeList) (h : Heap)
    → exec_object c l h ≡ proceed (exec (hook_call l.offset c) l.base h) (over_base l)
unfolding exec_object exec Intrusive.push_back Intrusive.push_front Intrusive.pop_front
    Intrusive.pop_back
exec_object-exec (adds_back obj) l h =
    done_through l (Ops.push_back (get_hook l.offset obj) l.base h)
exec_object-exec (adds_front obj) l h =
    done_through l (Ops.push_front l.base.head (get_hook l.offset obj) l.base h)
exec_object-exec (takes_front thread timeout expired) l h =
    got_through l (Ops.pop_front thread timeout expired l.base h)
exec_object-exec (takes_back thread timeout expired) l h =
    got_through l (Ops.pop_back thread timeout expired l.base h)

module _ (f : ℕ) where
  pub has-hooks :
      (os : List Ptr) (o : Ptr) → has o os ≡ true → has (get_hook f o) (hooks f os) ≡ true
  has-hooks [] o i = i
  has-hooks (p ∷ os) o i = elim (Bool-cases (o == p)) [
    | inl hit ↦
        let e : get_hook f o ≡ get_hook f p = ap (get_hook f) ((==_iff o p).0 hit) in ground arith
    | inr miss ↦ let rest = has-hooks os o (ground arith) in ground arith
  ]

  -- Different objects have different hooks.
  out-hooks :
      (os : List Ptr) (o : Ptr)
      → AllBelow u64_mod os
      → o < u64_mod
      → has o os ≡ false
      → has (get_hook f o) (hooks f os) ≡ false
  out-hooks [] o small below out = refl
  out-hooks (p ∷ os) o (first, small) below out = elim (Bool-cases (get_hook f o == get_hook f p)) [
    | inl hit ↦
        let same : o ≡ p =
          sym (get_parent-get_hook f o below)
          ∙ ap (get_parent f) ((==_iff _ _).0 hit)
          ∙ get_parent-get_hook f p first in
        absurd (ground arith)
    | inr miss ↦ let rest = out-hooks os o small below (ground arith) in ground arith
  ]

  pub last_or-hooks :
      (o : Ptr) (os : List Ptr) → last_or (get_hook f o) (hooks f os) ≡ get_hook f (last_or o os)
  last_or-hooks o [] = refl
  last_or-hooks o (p ∷ os) = last_or-hooks p os

  pub but_last-hooks :
      (o : Ptr) (os : List Ptr) → but_last (get_hook f o) (hooks f os) ≡ hooks f (but_last o os)
  unfolding but_last
  but_last-hooks o [] = refl
  but_last-hooks o (p ∷ os) = ap {B = List Ptr} (λ r. get_hook f o ∷ r) (but_last-hooks p os)

pub has-last : (o : Ptr) (os : List Ptr) → has (last_or o os) (o ∷ os) ≡ true
has-last o [] = ground arith
has-last o (p ∷ os) = let rest = has-last p os in ground arith

pub small-has : (b : ℕ) (os : List Ptr) (o : Ptr) → AllBelow b os → has o os ≡ true → o < b
small-has b [] o s i = absurd (false≢true i)
small-has b (p ∷ os) o (first, s) i = elim (Bool-cases (o == p)) [
  | inl hit ↦ ground arith
  | inr miss ↦ small-has b os o s (ground arith)
]

pub AllBelow-but_last :
    (b : ℕ) (o : Ptr) (os : List Ptr) → AllBelow b (o ∷ os) → AllBelow b (but_last o os)
unfolding but_last
AllBelow-but_last b o [] s = tt
AllBelow-but_last b o (p ∷ os) s = (s.0, AllBelow-but_last b p os s.1)

pub Allowed-hooks :
    (pool : List Ptr) (h : Heap) (l : IntrusiveSafeList) (os : List Ptr) (c : ObjectCall)
    → ObjectWorld pool h l os
    → ObjectAllowed pool os c
    → Allowed (hooks l.offset pool) (hooks l.offset os) (hook_call l.offset c)
Allowed-hooks pool h l os (adds_back obj) w (i, o) = inr (
  has-hooks l.offset pool obj i,
  out-hooks l.offset os obj w.small (small-has _ pool obj w.pool_small i) o,
)
Allowed-hooks pool h l os (adds_front obj) w (i, o) = inr (
  has-hooks l.offset pool obj i,
  out-hooks l.offset os obj w.small (small-has _ pool obj w.pool_small i) o,
)
Allowed-hooks pool h l os (takes_front thread timeout expired) w may = tt
Allowed-hooks pool h l os (takes_back thread timeout expired) w may = tt

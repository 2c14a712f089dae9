-- ===== src/SafeList/Deque.antt =====
-- What `SafeList` promises: calls on a sequence of hooks, and the calls of the class beside it.
use fredlib.Base.{
  ℕ, ◌≡◌, ◌⊎◌, Bool, true, false, not, ◌||◌, List, [], ◌∷◌, ◌++◌, ◌==◌, has, last_or, if◌then◌else◌,
}
use fredlib.SafeList.Heap.{Ptr, null, Action, pure, ◌>>=◌}
use fredlib.SafeList.Ops.{
  SafeList, insert, erase, push_back, push_front, pop_front, pop_back, Popped, blocked, popped,
}
use fredlib.SafeList.View.{is_nil}

-- A call of a member function.
pub data Call : Type 0 where
  inserts : (existing new : Ptr) → Call
  erases : Ptr → Call
  pushes_back : Ptr → Call
  pushes_front : Ptr → Call
  pops_front : (thread timeout : ℕ) (expired : Bool) → Call
  pops_back : (thread timeout : ℕ) (expired : Bool) → Call

pub data Reply : Type 0 where
  done : Bool → Reply
  got : Popped → Reply

abbrev with_done : Action (Bool × SafeList) → Action (Reply × SafeList)
with_done m = do (b, l) ← m; pure (done b, l)

abbrev with_got : Action (Popped × SafeList) → Action (Reply × SafeList)
with_got m = do (p, l) ← m; pure (got p, l)

-- The class.
unfoldable pub exec : Call → SafeList → Action (Reply × SafeList)
exec (inserts existing new) l = with_done (insert existing new l)
exec (erases node) l = with_done (erase node l)
exec (pushes_back new) l = with_done (push_back new l)
exec (pushes_front new) l = with_done (push_front l.head new l)
exec (pops_front thread timeout expired) l = with_got (pop_front thread timeout expired l)
exec (pops_back thread timeout expired) l = with_got (pop_back thread timeout expired l)

unfoldable pub exec_all : List Call → SafeList → Action (List Reply × SafeList)
exec_all [] l = pure ([], l)
exec_all (c ∷ cs) l = do (r, l') ← exec c l; (rs, l'') ← exec_all cs l'; pure (r ∷ rs, l'')

-- The sequence.
unfoldable pub put_before : (existing new : Ptr) → List Ptr → List Ptr
put_before existing new [] = []
put_before existing new (x ∷ xs) =
    if x == existing then new ∷ x ∷ xs else x ∷ put_before existing new xs

unfoldable pub remove : Ptr → List Ptr → List Ptr
remove p [] = []
remove p (x ∷ xs) = if x == p then xs else x ∷ remove p xs

unfoldable pub but_last : Ptr → List Ptr → List Ptr
but_last x [] = []
but_last x (y ∷ ys) = x ∷ but_last y ys

abbrev pub wait_reply : (timeout : ℕ) (expired : Bool) → Reply
wait_reply timeout expired =
    if (timeout == 0) || not expired then got blocked else got (popped null)

unfoldable pub spec : Call → List Ptr → Reply × List Ptr
unfolding put_before remove but_last
spec (inserts existing new) [] =
    if (new == null) || not (existing == null) then (done false, []) else (done true, new ∷ [])
spec (inserts existing new) (x ∷ xs) =
    if (new == null) || (existing == null)
    then (done false, x ∷ xs)
    else (done true, put_before existing new (x ∷ xs))
spec (erases node) xs = if node == null then (done false, xs) else (done true, remove node xs)
spec (pushes_back new) xs = if new == null then (done false, xs) else (done true, xs ++ new ∷ [])
spec (pushes_front new) xs = if new == null then (done false, xs) else (done true, new ∷ xs)
spec (pops_front thread timeout expired) [] = (wait_reply timeout expired, [])
spec (pops_front thread timeout expired) (x ∷ xs) = (got (popped x), xs)
spec (pops_back thread timeout expired) [] = (wait_reply timeout expired, [])
spec (pops_back thread timeout expired) (x ∷ xs) = (got (popped (last_or x xs)), but_last x xs)

unfoldable pub spec_all : List Call → List Ptr → List Reply × List Ptr
spec_all [] xs = ([], xs)
spec_all (c ∷ cs) xs = let (r, ys) = spec c xs in let (rs, zs) = spec_all cs ys in (r ∷ rs, zs)

-- What a caller must respect when the list holds `xs`, over the hooks `pool`: a hook that is put in
-- is not in the list yet; a position and a hook to erase are in it. Null is always allowed.
abbrev pub Fresh : (pool xs : List Ptr) → Ptr → Type 0
Fresh pool xs new = (new ≡ null) ⊎ ((has new pool ≡ true) × (has new xs ≡ false))

abbrev pub Allowed : (pool xs : List Ptr) → Call → Type 0
Allowed pool xs (inserts existing new) =
    Fresh pool xs new × ((existing ≡ null) ⊎ ((has existing xs ≡ true) ⊎ (is_nil xs ≡ true)))
Allowed pool xs (erases node) = (node ≡ null) ⊎ (has node xs ≡ true)
Allowed pool xs (pushes_back new) = Fresh pool xs new
Allowed pool xs (pushes_front new) = Fresh pool xs new
Allowed pool xs (pops_front _ _ _) = Unit
Allowed pool xs (pops_back _ _ _) = Unit

-- Each call of a sequence is allowed where it is made.
abbrev pub AllAllowed : (pool xs : List Ptr) → List Call → Type 0
AllAllowed pool xs [] = Unit
AllAllowed pool xs (c ∷ cs) = Allowed pool xs c × AllAllowed pool (spec c xs).1 cs

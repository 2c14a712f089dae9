-- ===== src/SafeList/Ops.antt =====
-- include/safe_list.hpp, `class SafeList`: its state and its members. Each function is one critical
-- section under `mListMutex`. The threads that sleep on `mListCV` are part of the state.
use fredlib.Base.{
  ℕ, ◌+◌, ◌-◌, ◌%◌, ◌^◌, Bool, true, false, not, ◌&&◌, ◌||◌, List, [], ◌∷◌, ◌==◌, if◌then◌else◌,
}
use fredlib.SafeList.Heap.{Ptr, null, Action, pure, ◌>>=◌, ◌>>◌, load}
use fredlib.SafeList.Hook.{unlink, link_after, link_before}

-- `asleep` holds the threads that are blocked in a wait on `mListCV`.
pub record SafeList : Type 0 where
  pub head : Ptr
  pub tail : Ptr
  pub size : ℕ  -- uint32_t
  pub asleep : List ℕ

-- The constructor.
abbrev pub new_list : SafeList
new_list = record { head = null; tail = null; size = 0; asleep = [] }

abbrev pub u32_mod : ℕ
u32_mod = 2 ^ 32

-- `_empty()`
unfoldable pub is_empty : SafeList → Bool
is_empty l = (l.head == null) && (l.tail == null)

-- `mListCV.notify_all()`
abbrev pub notify_all : SafeList → SafeList
notify_all l = record l { asleep = [] }

-- `mSize++` and `mSize--` on a uint32_t
abbrev pub grow : SafeList → SafeList
grow l = record l { size = (l.size + 1) % u32_mod }

abbrev pub shrink : SafeList → SafeList
shrink l = record l { size = (l.size + u32_mod - 1) % u32_mod }

-- The guard of `insert`.
unfoldable pub insert_refused : Ptr → Ptr → SafeList → Bool
unfolding is_empty
insert_refused existing new l =
    (new == null)
    || ((is_empty l && not (existing == null)) || (not (is_empty l) && (existing == null)))

-- The `danger zone` of `insert`.
unfoldable pub insert_link : Ptr → Ptr → SafeList → Action SafeList
unfolding is_empty
insert_link existing new l = if is_empty l then pure (record l { head = new; tail = new }) else do
  link_before new existing
  pure (if l.head == existing then record l { head = new } else l)

unfoldable pub insert : Ptr → Ptr → SafeList → Action (Bool × SafeList)
unfolding insert_refused insert_link
insert existing new l =
    if insert_refused existing new l
    then pure (false, l)
    else do l' ← insert_link existing new l; pure (true, notify_all (grow l'))

-- `if (node == mTail) mTail = node->prev;` and `if (node == mHead) mHead = node->next;`
unfoldable pub erase_tail : Ptr → SafeList → Action SafeList
erase_tail node l =
    if node == l.tail then (do n ← load node; pure (record l { tail = n.prev })) else pure l

unfoldable pub erase_head : Ptr → SafeList → Action SafeList
erase_head node l =
    if node == l.head then (do n ← load node; pure (record l { head = n.next })) else pure l

unfoldable pub erase : Ptr → SafeList → Action (Bool × SafeList)
unfolding erase_tail erase_head
erase node l = if node == null then pure (false, l) else do
  l' ← erase_tail node l
  l'' ← erase_head node l'
  unlink node
  pure (true, notify_all (shrink l''))

unfoldable pub push_back : Ptr → SafeList → Action (Bool × SafeList)
unfolding is_empty
push_back new l = if new == null then pure (false, l) else do
  l' ←
      if is_empty l
      then pure (record l { head = new; tail = new })
      else (do link_after new l.tail; pure (record l { tail = new }))
  pure (true, notify_all (grow l'))

-- `insert(mHead, newNode)`: `mHead` is read before `insert` takes the mutex, so `front` is the
-- head at that moment, and the list that `insert` finds may be a later one.
unfoldable pub push_front : (front : Ptr) → Ptr → SafeList → Action (Bool × SafeList)
push_front front new l = insert front new l

-- What a call of `pop_front` or `pop_back` does when it has the mutex: it sleeps on `mListCV`, or it
-- returns a node, or `nullptr`.
pub data Popped : Type 0 where
  blocked : Popped
  popped : Ptr → Popped

-- `wait` and `wait_for` with the predicate `!_empty()`: the wait goes on while the list is empty,
-- unless there is a timeout and it has expired.
unfoldable pub must_wait : (timeout : ℕ) (expired : Bool) → SafeList → Bool
unfolding is_empty
must_wait timeout expired l = is_empty l && ((timeout == 0) || not expired)

unfoldable pub take_front : SafeList → Action (Popped × SafeList)
unfolding is_empty
take_front l = if is_empty l then pure (popped null, l) else do
  n ← load l.head
  unlink l.head
  pure (
    popped l.head,
    shrink (record l { head = n.next; tail = if l.tail == l.head then null else l.tail }),
  )

unfoldable pub take_back : SafeList → Action (Popped × SafeList)
unfolding is_empty
take_back l = if is_empty l then pure (popped null, l) else do
  n ← load l.tail
  unlink l.tail
  pure (
    popped l.tail,
    shrink (record l { tail = n.prev; head = if l.head == l.tail then null else l.head }),
  )

-- `thread` is the caller. A call that blocks is made again when the thread is woken.
unfoldable pub pop_front :
    (thread timeout : ℕ) (expired : Bool) → SafeList → Action (Popped × SafeList)
unfolding must_wait take_front
pop_front thread timeout expired l =
    if must_wait timeout expired l
    then pure (blocked, record l { asleep = thread ∷ l.asleep })
    else take_front l

unfoldable pub pop_back :
    (thread timeout : ℕ) (expired : Bool) → SafeList → Action (Popped × SafeList)
unfolding must_wait take_back
pop_back thread timeout expired l =
    if must_wait timeout expired l
    then pure (blocked, record l { asleep = thread ∷ l.asleep })
    else take_back l

-- `size()` and `empty()`
unfoldable pub size : SafeList → ℕ
size l = l.size

unfoldable pub empty : SafeList → Bool
unfolding is_empty
empty l = is_empty l

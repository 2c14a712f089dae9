-- ===== src/SafeList/Hook.antt =====
-- include/safe_list.hpp, the members of `struct listHook`, one command for each assignment.
use fredlib.SafeList.Heap.{Ptr, null, Action, ◌>>=◌, ◌>>◌, load, set_prev, set_next, when_set}

-- `if (prev) prev->next = next; if (next) next->prev = prev; prev = next = nullptr;`
-- The members are read again by each statement.
unfoldable pub unlink : Ptr → Action (Unit {0})
unlink this = do
  n ← load this
  when_set n.prev (set_next n.prev n.next)
  m ← load this
  when_set m.next (set_prev m.next m.prev)
  set_prev this null
  set_next this null

-- `if (prev) prev->next = this; if (next) next->prev = this;`, which ends both links.
unfoldable pub relink : Ptr → Action (Unit {0})
relink this = do
  n ← load this
  when_set n.prev (set_next n.prev this)
  m ← load this
  when_set m.next (set_prev m.next this)

unfoldable pub link_after : Ptr → Ptr → Action (Unit {0})
link_after this prev_node = do
  set_prev this prev_node
  n ← load prev_node
  set_next this n.next
  relink this

unfoldable pub link_before : Ptr → Ptr → Action (Unit {0})
link_before this next_node = do
  n ← load next_node
  set_prev this n.prev
  set_next this next_node
  relink this

unfoldable pub reset : Ptr → Action (Unit {0})
reset this = do set_prev this null; set_next this null

-- ===== src/SafeList/Shared.antt =====
-- include/safe_list.hpp, `class SafeList` under several threads: the members are steps, each one critical
-- section under `mListMutex`, in any order and with any arguments.
pub mod Sleepers
use fredlib.Base.{ℕ, ◌≡◌, Bool, List, ◌∷◌, ◌++◌}
use fredlib.SafeList.Heap.{Ptr, Heap, Outcome, ok}
use fredlib.SafeList.Ops.{
  SafeList, Popped, new_list, insert, erase, push_back, push_front, pop_front, pop_back,
}

pub record Shared : Type 0 where
  pub list : SafeList
  pub heap : Heap

-- A call by some thread. A call of `pop_front` or `pop_back` that blocks leaves the thread asleep on
-- `mListCV`, and is made again when the thread is woken. `wakes` is a wake-up, or the end of a timeout, of
-- one thread; `writes` stands for what the program does with hooks itself.
pub data Step (s t : Shared) : Type 0 where
  inserts :
      (existing new : Ptr) (done : Bool)
      → insert existing new s.list s.heap ≡ ok (done, t.list) t.heap
      → Step s t
  erases :
      (node : Ptr) (done : Bool) → erase node s.list s.heap ≡ ok (done, t.list) t.heap → Step s t
  pushes_back :
      (new : Ptr) (done : Bool) → push_back new s.list s.heap ≡ ok (done, t.list) t.heap → Step s t
  pushes_front :
      (front new : Ptr) (done : Bool)
      → push_front front new s.list s.heap ≡ ok (done, t.list) t.heap
      → Step s t
  pops_front :
      (thread timeout : ℕ) (expired : Bool) (p : Popped)
      → pop_front thread timeout expired s.list s.heap ≡ ok (p, t.list) t.heap
      → Step s t
  pops_back :
      (thread timeout : ℕ) (expired : Bool) (p : Popped)
      → pop_back thread timeout expired s.list s.heap ≡ ok (p, t.list) t.heap
      → Step s t
  wakes :
      (xs ys : List ℕ) (thread : ℕ)
      → s.list.asleep ≡ xs ++ thread ∷ ys
      → t.list ≡ record s.list { asleep = xs ++ ys }
      → Step s t
  writes : t.list ≡ s.list → Step s t

pub data Reach (s : Shared) : Shared → Type 0 where
  here : Reach s s
  later : {t u : Shared} → Reach s t → Step t u → Reach s u

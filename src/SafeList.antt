-- ===== src/SafeList.antt =====
-- include/safe_list.hpp: hooks, `SafeList` with its iterator, and `IntrusiveSafeList`.
pub mod Heap
pub mod Hook
pub mod Ops
pub mod Returns
pub mod Chain
pub mod Links
pub mod View
pub mod Push
pub mod Insert
pub mod Remove
pub mod Deque
pub mod World
pub mod Refine
pub mod Sequence
pub mod Iterator
pub mod Race
pub mod Client
pub mod ObjectWalk
pub mod Intrusive
pub mod Objects
pub mod ObjectCalls
pub mod Shared
mod Tests

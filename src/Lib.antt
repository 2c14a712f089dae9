-- ===== src/Lib.antt =====
-- fredlib, a C++ library of header files: an intrusive, thread-safe doubly linked list
-- (include/safe_list.hpp), control points for threads (include/threading.hpp) and hash keys with
-- their engines (include/hash.hpp).
--
-- Base has the shared helpers: tests on native numbers, lists, signed integers, text.
--
-- Utils models the small headers.
--   Time, with Elapsed: include/time.hpp. The clock shows nanoseconds, and a count of elapsed time is a
--     number of 64 bits. The sleep of the operating system is a parameter that sleeps long enough.
--   Stdout, with Lines: include/safe_stdout.hpp. `snprintf` is a parameter; assumed are its documented
--     results: the length of the whole text, the text cut to the buffer, or a number below zero.
--   Macros: include/micros.hpp.
--
-- SafeList models include/safe_list.hpp.
--   Heap, Hook: `listHook`. Hooks stand at addresses of a heap; an action reads and writes them and
--     ends with a value or in a fault, which stands for undefined behaviour. `unlink`, `link_after`,
--     `link_before` and `reset` make the loads and stores of the code in its order.
--   Ops: `SafeList`. Each member is one critical section under `mListMutex`. The state is `mHead`,
--     `mTail`, `mSize` (a number modulo 2 ^ 32) and the threads asleep on `mListCV`. `push_front`
--     reads `mHead` before it has the mutex, so the head that it read is an argument. `pop_front` and
--     `pop_back` return, or sleep; whether a timeout has expired is an argument.
--   Chain, Links, View: linked segments, what the hook operations do to them, and the well-formedness
--     `IsList`: a list object stands for a sequence of hooks.
--   Push, Insert, Remove: each member against the sequence.
--   Deque, World, Refine, Sequence: the specification, a plain sequence of hooks with its own replies,
--     and the refinement for a pool of hooks and any number of calls.
--   Race: `push_front` with an outdated head, and `erase` of a hook that is not in the list.
--   Iterator, with Walk: `SafeList::Iterator`. The loops over a list run on fuel, of which one more
--     than the length of the list is enough.
--   Shared, with Sleepers: threads that call the members of one list in any order.
--   Client: the members for one caller. ObjectWalk: the loops over an `IntrusiveSafeList`, on fuel, of
--     which one more than the number of objects is enough.
--   Intrusive, Objects: `IntrusiveSafeList`, whose hooks stand inside objects; addresses have 64 bits.
--   ObjectCalls, with Hooks and Refine: its calls against a plain sequence of objects.
--
-- Threading models the control points of include/threading.hpp, each as a step relation over threads:
-- a critical section is one step; a wait on a condition variable is a sleep, a wake-up, which may be
-- spurious, and a test of the predicate with the mutex taken again. Counts are integers without
-- overflow, and the waiting times that the members return are left out.
--   Threads: threads with a value each, and how many of them pass a test.
--   SyncPoint, with Barrier and Rounds: `SyncPoint`, each of whose threads calls `sync` once, and, in
--     Rounds, once in each round.
--   FanInPoint, with Gate and Members: `FanInPoint`, with children that call `done` and callers of `wait`;
--     in Members with children that are counted meanwhile.
--   PausePoint, with Invariant, Handshake and Phases: `PausePoint`, with workers in `pauseIfRequred` and one
--     main thread that calls `pause` and `resume` in turn; in Phases the number of workers changes.
--   ThreadControl, with Counts: the three together, and the flag of `stopRequired`.
--   Program, with Points, WorkerMoves, MainMoves, Invariant, Main, Over, Outcomes and Schedules: programs
--     of one main thread and of threads that run one function, whose statements are calls of a
--     `ThreadControl`. The invariant says that the points of a program make their own steps only.
--   ThreadPool, with Invariant, Moves, Lifecycle, Ending (Distance, Stops) and Progress: `GenericThreadPool`
--     with a fixed number of workers. Its steps drive those of its control points, and its queue is a sequence, as OnHeap
--     allows. A task is a number. The waiting times and the joins of `stop` are left out.
--   ThreadPool.Elements, with Owned, Calls, Pops and Deletes: the queue elements, objects with a hook and a
--     task on the heap of `_q`. `new` may choose any address that no object uses.
--   ThreadPool.OnHeap, with Shadow, Workers, Controls, Tasks, Takes, Steps, Refines and Lifetimes: the pool
--     whose queue is that list of elements. Shadow ties it to the pool whose queue is a sequence.
--   ThreadPool.Growing, with Counts, Steps, Invariant and Races: the pool while one thread adds others, each of
--     which may run before it is counted.
--   WorkerThreads, with Counts and Calls: the members of `WorkerThreads`, the number of its threads and the
--     counts of its control. The number of cores and the product with `scale`, a double, are parameters.
--
-- Hash models include/hash.hpp.
--   Key, Order, Print: `HashKey`, its comparisons and its printed form. A digest is a list of bytes.
--   Engines, with Fill, Dummy, Chunks and Names: the engines' `hash` functions. A write behind the end of the
--     digest is `none`. The loop of `XXhash64Engine` runs on fuel, of which one more than the length of
--     the input is enough. The hash functions of OpenSSL, BLAKE3, CityHash and XXHash64 are parameters.
--     Assumed are the sizes of their results and, for XXHash64, that input may be added in pieces.
--
-- Examples models the programs under examples.
--   ListDemo, with Output and Objects: examples/list.cpp, on a heap of hooks. A local object stands at an
--     address that is a parameter.
--   ThreadingDemo, with Worker and Promises: the demos of examples/threading.cpp that use a control.
--   PoolDemo, with Numbers, Pending, Tasks and Schedules: that of the thread pool, with its task and the
--   members that change its number of threads.
--   ThreadingMain: `main`. Of what the programs print, the numbers are kept.
--
-- Not modelled: the copies of other projects under hashes, whose functions are parameters; the tests;
-- of include/threading.hpp the routines of `WorkerThreads` but that of the demo, since they are the
-- user's; of include/hash.hpp the constructor from `std::array`, which does not compile when it is
-- instantiated.
pub mod Base
pub mod Utils
pub mod SafeList
pub mod Threading
pub mod Hash
pub mod Examples

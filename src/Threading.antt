-- ===== src/Threading.antt =====
-- include/threading.hpp: the control points of threads, and what is built from them.
pub mod Threads
pub mod SyncPoint
pub mod FanInPoint
pub mod PausePoint
pub mod ThreadControl
pub mod ThreadPool
pub mod WorkerThreads
pub mod Program
mod Tests

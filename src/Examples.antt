-- ===== src/Examples.antt =====
-- The programs under examples, which show how the library is used.
pub mod ListDemo
pub mod ThreadingDemo
pub mod PoolDemo
pub mod ThreadingMain
mod Tests

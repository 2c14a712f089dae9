-- ===== src/Utils.antt =====
-- The small headers of the library: include/time.hpp, include/safe_stdout.hpp and include/micros.hpp.
pub mod Time
pub mod Macros
pub mod Stdout
mod Tests

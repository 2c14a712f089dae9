-- ===== src/Hash.antt =====
-- include/hash.hpp: hash keys and the engines that fill them.
pub mod Key
pub mod Order
pub mod Print
pub mod Engines
mod Tests

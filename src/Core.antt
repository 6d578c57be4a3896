-- ===== src/Core.antt =====
-- The parts of Project/CoreLib that the client's clicks and keys go through.
pub mod Input
pub mod Objects
pub mod Select
mod Tests

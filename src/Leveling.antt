-- ===== src/Leveling.antt =====
-- src/leveling: levels and ranks, and the events that they cause.
pub mod Levels
pub mod Ranks
pub mod Service
pub mod Board
pub mod Sync
mod Tests

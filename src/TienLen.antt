-- ===== src/TienLen.antt =====
-- src/games/tienlen: the card game. The rules (tienlen.logic.ts) stand in `Cards`, `Combos` and
-- `Hands`.
pub mod Cards
pub mod Combos
pub mod Beats
pub mod Hands
pub mod Game
pub mod Turns
pub mod Standing
pub mod Table
pub mod Service
pub mod Numbers
pub mod Progress
pub mod Ending
pub mod Handlers
mod Tests

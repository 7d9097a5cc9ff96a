-- ===== src/Strategy.antt =====
-- The signals of strategy/.
pub mod Signal
pub mod Fees
pub mod Scorer
pub mod Generator
mod Tests

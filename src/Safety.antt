-- ===== src/Safety.antt =====
-- The gates in front of a trade: safety/constants.py and safety/risk.py.
pub mod Limits
pub mod Risk
pub mod Validator
mod Tests

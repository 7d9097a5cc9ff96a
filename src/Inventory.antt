-- ===== src/Inventory.antt =====
-- The positions: inventory/tracker.py and inventory/rebalancer.py.
pub mod Tracker
pub mod Skew
pub mod Snapshot
pub mod Rebalancer
pub mod Pnl
pub mod CostBasis
mod Tests

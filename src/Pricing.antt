-- ===== src/Pricing.antt =====
-- The pools and routes of pricing/.
pub mod Amm
pub mod AmmV3
pub mod Router
pub mod Arbitrage
pub mod Impact

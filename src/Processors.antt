-- ===== src/Processors.antt =====
-- app/plugins/processors: frames to payloads.
pub mod Cells
pub mod Profile
pub mod Company
pub mod MarketData
pub mod Listing
pub mod Snapshot
pub mod Identity
pub mod Priced
pub mod Candles
pub mod Baskets
pub mod Listed

-- ===== src/Coinbase.antt =====
-- packages/coinbase and packages/shared/src/coinbase.ts: how a block reward is split into the
-- outputs of the coinbase transaction.
pub mod Output
pub mod Fees
pub mod Solo
pub mod Pplns
pub mod Natural
pub mod Script
mod Tests

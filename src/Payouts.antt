-- ===== src/Payouts.antt =====
-- apps/payouts: the worker that matures found blocks, pays the dust of matured blocks over
-- Lightning, and repairs the attempts that a crash has left in flight.
pub mod Store
pub mod Types
pub mod Maturity
pub mod Reconcile
pub mod Recording
pub mod ZapReceipt
pub mod Fanout
mod Tests
mod Samples

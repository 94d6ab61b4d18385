-- ===== src/Shared.antt =====
-- packages/shared: parsing of the worker names by which miners are routed to their den.
pub mod Pattern
pub mod Hex
pub mod WorkerName
mod Tests

-- ===== src/Stratum.antt =====
-- apps/stratum: the connection of a miner with its messages, jobs, targets and statistics, the payouts and
-- the template of a den, and the guard of the outbound requests that a user's input asks for.
pub mod Ssrf
pub mod Extranonce
pub mod MiningJob
pub mod Jobs
pub mod Messages
pub mod Client
pub mod Den
pub mod Statistics
pub mod Vardiff
mod Tests

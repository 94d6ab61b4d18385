-- ===== src/Stratum/Ssrf.antt =====
-- apps/stratum/src/hashden/api/ssrf-guard.ts: which resolved addresses may be connected to. `net.isIPv4`,
-- `net.isIPv6` and the DNS lookup are parameters of Resolution.
pub mod Ipv4
pub mod Ipv6
pub mod Resolution
pub mod Ranges
pub mod Embedded

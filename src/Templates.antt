-- ===== src/Templates.antt =====
-- packages/templates: where a den's block templates come from, and when the platform's node stands
-- in for the operator's.
pub mod Health
pub mod Source
mod Tests

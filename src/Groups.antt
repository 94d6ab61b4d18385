-- ===== src/Groups.antt =====
-- packages/groups: routing of a worker name to a den and its member, and the share window from
-- which a den's coinbase is computed.
pub mod Router
pub mod Window
mod Tests

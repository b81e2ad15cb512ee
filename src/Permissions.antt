-- ===== src/Permissions.antt =====
-- packages/shared/src/permissions.ts: the grantable permission keys, the closure of a set of them
-- under their implication table, and the selection that a checkbox of the web app produces.
pub mod Keys
pub mod KeyFacts
pub mod Close
pub mod Closure
pub mod Selection
mod Tests

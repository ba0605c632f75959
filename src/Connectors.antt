-- ===== src/Connectors.antt =====
-- Small checks that connectors and web research share.
pub mod Checks

-- ===== src/Domain.antt =====
-- apps/api/app/domain: identities, scopes and event contracts.
pub mod Text
pub mod Principals
pub mod Values
pub mod Streaming
pub mod Requests

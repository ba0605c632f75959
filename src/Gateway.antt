-- ===== src/Gateway.antt =====
-- apps/api/app/gateway: the one path by which a tool runs.
pub mod Spec
pub mod Types
pub mod Json
pub mod Invoke
pub mod Confirm
pub mod SingleUse

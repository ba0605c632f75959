-- ===== src/Policy.antt =====
-- apps/api/app/policy and apps/api/app/auth/roles.py: who may do what.
pub mod Authorization
pub mod Pdp
pub mod Cerbos
pub mod Roles
pub mod Disclosure

-- ===== src/DataAccess.antt =====
-- apps/api/app/data_access.
pub mod FieldPolicy

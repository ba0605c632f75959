-- ===== src/Persistence.antt =====
-- apps/api/app/persistence: the control store.
pub mod ControlStore
pub mod Records

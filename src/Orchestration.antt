-- ===== src/Orchestration.antt =====
-- apps/api/app/orchestration and the registries that it reads.
pub mod Registries
pub mod Planner
pub mod Executor
pub mod ReadOnly

-- ===== src/InstitutionData.antt =====
-- apps/api/app/institution_data/store.py: the rows that the gateway and the workers keep.
pub mod Table
pub mod Approvals
pub mod Jobs

-- ===== src/Normalization.antt =====
-- apps/api/app/normalization.
pub mod Deduplication

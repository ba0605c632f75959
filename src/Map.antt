-- ===== src/Map.antt =====
-- apps/api/app/internet_intelligence/map: the grades of the assets of one institution, and the gate
-- that decides what readers see.
pub mod Grades
pub mod Gate

-- ===== src/Workers.antt =====
-- apps/api/app/workers: the queue over the background jobs.
pub mod Queue

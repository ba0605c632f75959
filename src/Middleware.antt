-- ===== src/Middleware.antt =====
-- apps/api/app/middleware: the limits on requests.
pub mod RateLimit
pub mod RequestSize

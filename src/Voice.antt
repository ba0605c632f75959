-- ===== src/Voice.antt =====
-- apps/api/app/voice: the sessions of live voice conversations.
pub mod Sessions

-- ===== src/Conversation.antt =====
-- apps/api/app/conversation: the turns of a conversation.
pub mod History

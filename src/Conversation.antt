-- ===== src/Conversation.antt =====
-- The turn of a conversation, backend/services/conversation.
pub mod Turn

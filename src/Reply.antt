-- ===== src/Reply.antt =====
-- reply.go: the reply to a message.
pub mod Chunks
pub mod Webhook
pub mod Cooldown

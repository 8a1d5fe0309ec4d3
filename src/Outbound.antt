-- ===== src/Outbound.antt =====
-- internal/outbound: what is done to a message before and while it is sent.
pub mod Split
pub mod Retry

-- ===== src/Normalize.antt =====
-- internal/normalize: the inbound messages.
pub mod Json
pub mod Converters
pub mod Incoming

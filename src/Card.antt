-- ===== src/Card.antt =====
-- card.go: streaming cards.
pub mod Client
pub mod Streamer
pub mod Requests
pub mod Steps

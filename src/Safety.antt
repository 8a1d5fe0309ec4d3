-- ===== src/Safety.antt =====
-- internal/safety: the inbound components, from the stale filter to the pipeline that joins them.
pub mod Stale
pub mod Lock
pub mod Policy
pub mod Seen
pub mod Queue
pub mod Manager
pub mod Media
pub mod Dedup
pub mod Pipeline
pub mod Ssrf
pub mod Batching

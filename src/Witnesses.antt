-- ===== src/Witnesses.antt =====
-- The theorems at inputs that meet their hypotheses, and runs of the model on small inputs.
mod Samples
mod Seen
mod Admission
mod Queue
mod Pipeline
mod Outbound
mod Token
mod Stream
mod Reply
mod Ssrf
mod Http
mod Batching
mod Identity

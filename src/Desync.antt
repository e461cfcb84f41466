-- ===== src/Desync.antt =====
-- nfq2/desync.c: what decides which packets of a connection are worked on, and how.
pub mod Limits
pub mod Sessions
pub mod Failures

-- ===== src/Common.antt =====
-- The helpers of store.common/src.
pub mod Process
pub mod Sha256
pub mod Worker
pub mod Socket

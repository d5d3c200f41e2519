-- ===== src/Transmission.antt =====
-- apps/api/src/modules/transmission/domain: what is sent to SIFEN together.
pub mod Lote
pub mod Batch
pub mod Row
pub mod Poll
pub mod Send
pub mod Recover
pub mod Assemble
pub mod Cycle

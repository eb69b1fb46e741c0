-- ===== src/Common.antt =====
-- plugins/common/: the helpers that plugins share.
pub mod Batcher
pub mod Distributor
pub mod SharedStorage
pub mod Retryer

-- ===== src/Decoder.antt =====
-- The decoder's parts that are not empty in the source: its list of recovery packets, its window,
-- and Get.
mod Examples
pub mod RecoveryPackets
pub mod Window

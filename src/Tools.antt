-- ===== src/Tools.antt =====
-- SiameseTools.h: the running minimum and maximum over a window of time.
mod Examples
pub mod WindowedMinMax
pub mod PcgRandom

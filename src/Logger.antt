-- ===== src/Logger.antt =====
-- The logging module of Logger.h and Logger.cpp: levels and channels, the queue between the threads
-- that log and the thread that writes, and the protocol of Start, Flush and Stop.
mod Examples
pub mod Level
pub mod Worker

-- ===== src/Common.antt =====
-- SiameseCommon.h: the arithmetic of columns and rows that encoder and decoder share.
mod Examples
pub mod Columns
pub mod Coefficients
pub mod Cauchy
pub mod Matrix
pub mod DataBuffer

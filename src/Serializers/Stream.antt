-- ===== src/Serializers/Stream.antt =====
-- WriteByteStream and ReadByteStream of SiameseSerializers.h: a cursor over a buffer. The memory that
-- the buffer stands in is passed along. The debug assertions are off, as in a release build.
pub mod Write
pub mod Read
pub mod Laws
pub mod Sequence

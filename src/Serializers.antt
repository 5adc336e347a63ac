-- ===== src/Serializers.antt =====
-- SiameseSerializers.h: the wire formats of the codec.
mod Fields
mod Examples
pub mod Pod
pub mod Stream
pub mod PacketNum
pub mod PacketCount
pub mod PacketLength
pub mod Metadata
pub mod NackRange

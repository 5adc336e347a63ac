-- ===== src/Allocator.antt =====
-- PacketAllocator.h and PacketAllocator.cpp: the allocator of packet data.
mod Examples
pub mod BitSet
pub mod LightVector
pub mod System
pub mod Window
pub mod State
pub mod Allocate
pub mod Free
pub mod Report
pub mod Sound

-- ===== src/Lib.antt =====
-- A model of Siamese, a streaming forward error correction library in C++, and proofs of what its
-- data formats, its packet allocator, its buffers, its encoder and its log promise.
--
-- The program. A sender numbers its original packets by column, sends recovery packets that sum
-- many of them, and a receiver answers with an acknowledgement that lists the ranges of packets it
-- misses. Everything that crosses the network goes through SiameseSerializers.h: integers, byte
-- streams, packet numbers, lengths and counts of variable width, the metadata at the end of a
-- recovery packet, and the loss ranges of an acknowledgement. Packet data lives in windows of fixed
-- size that PacketAllocator.h and PacketAllocator.cpp carve into units; a bit set per window
-- records the units in use. Encoder.cpp keeps the originals and sums them into recovery packets, and
-- the decoder keeps a list of those that arrived. SiameseCommon.h holds the types that these share, and Logger.h a log
-- whose messages pass through a queue to a thread that writes them.
--
-- Files and what they model.
--   Prelude.antt and Prelude/: library names passed on, Boolean tests on ℕ, fixed-width unsigned
--     integers (Word), the bits of `&` and `|` (Bits), the digits of a word (Digits), memory
--     (Memory), `^` (Xor), lists by number (Lists), and the int parameters (Int).
--   Serializers/Pod: ReadU16_LE to WriteU64_LE, in the byte-wise variants that
--     GF256_ALIGNED_ACCESSES selects, which fix the format for every target.
--   Serializers/Stream: WriteByteStream (Write) and ReadByteStream (Read).
--   Serializers/PacketNum, PacketCount, PacketLength: Serialize/DeserializeHeader and -Footer of
--     PacketNum, PacketCount and PacketLength, and DeserializeFooter_PacketNum_Unsafe.
--   Serializers/Metadata: RecoveryMetadata of SiameseCommon.h, SerializeFooter_RecoveryMetadata and
--     DeserializeFooter_RecoveryMetadata.
--   Serializers/NackRange: SerializeHeader_NACKLossRange and DeserializeHeader_NACKLossRange, each
--     in two halves, one for the start and one for the count.
--   Allocator/BitSet: CustomBitSet of PacketAllocator.h, with PopCount64 and TrailingZeros64; its
--     children hold the digits of words (Words), one bit (Members), SetRange and ClearRange
--     (Ranges), the two searches (Search), RangePopcount (Count) and the width of words (Bounds).
--   Allocator/Window: WindowHeader, the walk of Allocate over the holes of a window, and the updates
--     of a header in the constructor, Allocate, allocateFromNewWindow, Shrink and Free of
--     PacketAllocator.cpp; what the searches return (Outcomes), the walk (Regions), counts of used
--     units (Tally), the invariant (Consistent) and new windows (Fresh).
--   Allocator/LightVector: LightVector of PacketAllocator.h; the list that it stands for (Contents).
--   Allocator/System: SIMDSafeAllocate and SIMDSafeFree over the system's heap; what its blocks give
--     (Blocks).
--   Allocator/State, Allocate, Free, Report: the class Allocator with its windows, its two lists of
--     them and its allocation headers; Allocate, allocateFromNewWindow, fallbackAllocate and
--     moveLastFewWindowsToFull; Free, Shrink, Reallocate, the constructor and the destructor;
--     GetMemoryUsedBytes, GetMemoryAllocatedBytes and IntegrityCheck.
--   Allocator/Sound: which allocation owns which unit, and in which list each window stands, with the
--     operations: windows that change lists (Same, Moves), a region taken from a window (Take) or
--     from a new one (Grow), Allocate as a whole (Allocations), windows promoted (Promote), Free and
--     Shrink (Release), the constructor (Start), runs of a client (Runs, Reachable), units of a request
--     and of the fallback's block (Requests), the client's bytes through Allocate (Contents),
--     Reallocate (Reallocations), the fallback (Fallback), the statistics (Usage) and IntegrityCheck
--     (Integrity, with Places for its loops and Windows for its tests of one window).
--   Buffer: the class GrowingAlignedDataBuffer of GrowingAlignedDataBuffer.cpp, over the same heap;
--     the bytes that it holds (Contents).
--   Common/Columns, Common/Coefficients, Common/Cauchy: the column arithmetic, GetColumnValue,
--     GetRowValue, Int32Hash, GetRowOpcode and CauchyElement of SiameseCommon.h.
--   Common/Matrix: the class Allocator of pktalloc.h and GrowingAlignedByteMatrix of SiameseCommon.h
--     and SiameseCommon.cpp; the loop that copies rows (Rows), the elements (Elements), Resize
--     (Growth) and Initialize (Initialization).
--   Common/DataBuffer: the struct GrowingAlignedDataBuffer of SiameseCommon.h on the same allocator;
--     GrowZeroPadded (Growth).
--   Encoder: the class Encoder of Encoder.cpp; what a recovery packet holds (Recovery), and one lost
--     packet out of it (Loss).
--   Decoder/RecoveryPackets, Decoder/Window: RecoveryPacketList, DecoderPacketWindow,
--     CheckedRegionState and Decoder::Get; the list in the order of its ends (Order).
--   Interface: the functions that siamese.cpp defines.
--   Logger/Level: levels, channels, and the line of a message, of Logger.h and Logger.cpp.
--   Logger/Worker: OutputWorker with Start, Stop, Write, Flush and Loop as steps of its threads; what
--     every step keeps (Sound, with Kept, Loop and Stopping for the operations and Reached for the
--     states reached), and where the thread gets by its own steps (Progress, with Flush and Ending).
--   Tools/WindowedMinMax: WindowedMinMax of SiameseTools.h with its two comparisons, on unsigned
--     values.
--   Tools/PcgRandom: PCGRandom of SiameseTools.h; its output and its step (Laws).
--   Examples in the folders: tests on concrete inputs, for which Allocator/System/Bump is a heap.
--
-- How the state corresponds. A memory is a function from addresses to bytes, `store` is one
-- assignment, and a function of the source that writes returns the new memory. A pointer is an
-- address and 0 is the null pointer. A result of -1 is `none`; what a failing function leaves in an
-- output parameter is part of the result where the source changes it before it fails. An unsigned
-- parameter is a natural number with its wrap-around written out by u8, u32 and u64; an int
-- parameter is an integer. Debug assertions are off, as in a release build.
--
-- The allocator. Its windows and its allocation headers are functions from their addresses, kept
-- apart from the bytes of the memory, so that the bytes are those of the client, and no theorem
-- says what the headers do to the bytes that they take. `calloc` is a parameter, from the blocks in
-- use and a size to the address of a block; where a theorem needs it, a hypothesis says that a
-- block that it returns is not null and meets no block in use. The alignment is 16, as without
-- AVX2, and PKTALLOC_SHRINK, PKTALLOC_SCRUB_MEMORY, PKTALLOC_DISABLE and PKTALLOC_DEBUG are not
-- defined. The two lists of windows are lists, which grow without failure: Allocate ignores the
-- failures of LightVector, whose operations are modelled apart.
--
-- The logger. A session runs from Start to the end of Stop. A section under QueueLock is one step, and
-- so is each other access to what the threads share, so that a run of the program is a sequence of
-- steps, in any order. The thread, and a Stop that runs, stand at a place of their code, which is part
-- of the state; of the other threads the state holds how many are about to notify the thread, and
-- which sleep in Flush. Both waits may end by themselves. What was written, accepted and dropped since
-- Start is kept beside the members, for the statements.
--
-- Undefined behaviour. A copy in pktalloc.h to or from a null pointer, or from behind the end of the
-- old block, and a read behind the end of a packet in Encoder.cpp, is a result of its own, `none`.
--
-- Bounds. Loops over words recurse on the number of words left. The walk over the holes of a window
-- runs on fuel; find_region gives it 2048, one step for each unit, and as every step moves the start
-- by at least one unit, that is enough.
--
-- Not modelled: the finite field arithmetic of gf256.cpp, a copy of another project's library, whose
-- functions are parameters where they are called; the timers of SiameseTools.cpp; the benchmarks, tests
-- and build output; in the logger the exit handler, the output of Windows and Android, and the options
-- LOGGER_NEVER_DROP and LOGGER_FLUSH_ERRORS; freeEmptyWindows, which an option compiles, Construct and
-- Destruct of the allocator; OriginalPacket::Initialize, whose members are not those of its struct.
-- The rest of the decoder is declared and not defined in this repository.
pub mod Allocator
pub mod Buffer
pub mod Common
pub mod Decoder
pub mod Encoder
pub mod Interface
pub mod Logger
pub mod Prelude
pub mod Serializers
pub mod Tools

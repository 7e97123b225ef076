-- ===== src/Lib.antt =====
-- ChronosVector keeps, for each sensor, a window of recent vectors in memory (the hot ring), answers queries
-- from it, and moves what leaves the window to a cold tier as checksummed blocks.
--
-- The parts, the files that model them, and the code they follow:
--   Types        include/chronosv/types.h: error codes, dtypes, metrics, `chronosv_config_t`.
--   Bytes        the byte order helpers of src/block_codec.cpp and src/engine.cpp.
--   Crc          `crc32_ieee` and its table, src/block_codec.cpp.
--   Codec        `serialize_block`, `decode_block` and `block_serialized_size`, src/block_codec.cpp.
--   Metadata     the engine metadata blob, src/engine.cpp.
--   Validation   `validate_and_default` and `validate_sensor_id`, src/engine.cpp.
--   Ring         `SensorRing`, include/chronosv/ring_buffer.h.
--                Steps: `Append` write by write, between the steps of eviction.
--   Kernels      `QuantizeF32ToI8`, the INT8 kernels and the float32 kernels, src/kernels.cpp.
--   Engine       `Engine` of src/engine.cpp: its state, sensor map, `PreallocateSensor`, `DropSensor`, `Close`.
--     Ingest     `Append` and `AppendBatch`.
--     Evict      `EvictSensor`, `EvictOnce`, `Flush`, `MaintainSlidingWindow`.
--     Loop       `EvictionLoop`.
--     Query      `QueryRange`.
--     Scores     `FillScoresForRange`.
--     Nearest    `QueryNearestN`.
--     Anomaly    `DetectAnomaly`.
--     Stats      `GetStats`.
--     Listing    `ListSensors`.
--     Lifecycle  `Create`, `InitBackend`, the UUID, and the replay loop of `RehydrateSensorRing`.
--     Open       `Open` and `RehydrateSensorRing`.
--     Inv        the invariant of the engine, operation by operation.
--   Api          the C functions of src/engine.cpp, and the engines that their calls reach.
--   Wrapper      the class `Engine` of include/chronosv/chronos_vector.hpp.
--   Storage      the RocksDB backend, src/storage_rocksdb.cpp, and the null backend,
--                include/chronosv/storage_backend.h.
--   Base         lists and numbers, bitwise operations, signed integers, memory.
--   Tests        concrete runs, and the theorems at concrete inputs.
-- An operation of the engine validates with Validation, finds a ring in the sensor map, and reads or
-- changes it through Ring; an eviction copies entries out of the ring and hands them as a `Block` to a
-- `Backend`; the RocksDB backend encodes it with Codec and stores it under a key of Storage.
--
-- How the code becomes definitions. A record is a struct, and an operation takes the state and returns the
-- new one with the error code, or a `Result` where an error changes nothing. A machine word is a native
-- number with its wrap-around written out; a signed 64-bit integer is an integer; a float is the 32-bit
-- word that holds it. An array behind a pointer is a function of its offset (the ring) or the list of
-- what it holds (buffers and outputs); a pointer that may be null is an option. A loop is a recursion on
-- the number of its rounds or on the list that it goes through.
--
-- The bounds. `EvictionLoop` aside, no loop runs on fuel but `scan_id`, whose fuel is the length
-- limit that the loop itself tests. `eviction_loop` runs on a number of rounds, and a theorem gives one that is
-- enough. The theorems on rings ask for fewer than 2^64 appends, where the head would wrap around.
--
-- What the code calls and this library does not hold is an argument: the memory allocator, RocksDB
-- (`Database`), the operations of `float` with what Eigen computes (`Floats`: a norm, a dot product, the sum
-- of columns), the heap and sort functions of the C++ library (`HeapOps`, with their contracts in
-- `HeapLaws`), the clock, the random numbers, and the callbacks of the metrics sink, which only log events.
--
-- Threads. An operation of the engine is one call that nothing interrupts, so its locks are plain steps. Two
-- parts are modelled below that: `Ring.Steps` interleaves the single writes of one `Append` with the tail moves
-- of eviction, each a sequentially consistent step, and `Engine.Loop` has other threads act between its rounds.
--
-- What is not modelled: memory orders weaker than sequential consistency, the exceptions that the C functions
-- catch, `chronosv_destroy`, the methods of the C++ class that only forward, RocksDB's options and opening,
-- `EuclideanSqF32Chunk_Direct`, which only tests call, and the programs under examples, bench, soak and tests,
-- which drive the library. An allocation of a buffer for a block that is reread succeeds here. The
-- subtraction that gives the cutoff of an eviction wraps where it overflows, which is undefined in C++.
mod Base
pub mod Types
pub mod Bytes
pub mod Crc
pub mod Codec
pub mod Metadata
pub mod Validation
pub mod Kernels
pub mod Engine
pub mod Api
pub mod Wrapper
pub mod Storage
pub mod Ring
mod Tests

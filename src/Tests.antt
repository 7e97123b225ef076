-- ===== src/Tests.antt =====
-- Concrete runs of the model, and the theorems at concrete inputs.
mod CodecTests
mod RingTests
mod EngineTests
mod QueryTests
mod ApiTests
mod StorageTests

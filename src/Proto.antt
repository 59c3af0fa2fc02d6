-- ===== src/Proto.antt =====
-- The crate crates/ak1-proto: the wire protocol, the ASIO period buffers and the resampler.
pub mod Fifo
pub mod Buffers
pub mod Wire
pub mod Mode2
pub mod Resample

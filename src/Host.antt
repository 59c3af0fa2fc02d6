-- ===== src/Host.antt =====
-- The ASIO driver that hosts load: asio/src.
pub mod Abi
pub mod Settings
pub mod Duplex
pub mod Driver

-- ===== src/Kernel.antt =====
-- The kernel driver, driver/ak1-acx/src.
pub mod Rt
pub mod Session
pub mod Audio
pub mod Handlers
pub mod Stream
pub mod Usb
pub mod Device
pub mod Circuits

-- ===== src/Tests.antt =====
-- Theorems of this library applied to concrete inputs.
mod Proto
mod Kernel
mod Host
mod Engine
mod Circuits
mod Setup
mod Panel

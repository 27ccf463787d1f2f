-- ===== src/Tests.antt =====
-- The theorems at concrete inputs.
mod Mmio
mod Host
mod Bridge
mod Streams
mod Settings

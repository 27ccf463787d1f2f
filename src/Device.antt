-- ===== src/Device.antt =====
-- accelerator_pcie.c, the PCIe device inside QEMU.
pub mod Log
pub mod Mmio
pub mod Host
pub mod Nic
pub mod Serial
pub mod Msix
pub mod Lifecycle

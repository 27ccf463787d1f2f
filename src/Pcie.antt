-- ===== src/Pcie.antt =====
-- bridge-ip/QEMUPCIeBridge/hdl/dpi-pcie.c, the DPI side of the PCIe bridge.
pub mod Setup
pub mod Log2c
pub mod Poll
pub mod Request

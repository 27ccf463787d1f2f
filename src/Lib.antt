-- ===== src/Lib.antt =====
-- Verification of the QEMU and HDL co-simulation: a QEMU device and the DPI side of the HDL bridges,
-- two programs that exchange frames over ZeroMQ sockets.
--
-- The parts, and where each is modelled:
-- - acc/acc.h, the protocol: Protocol (BUFF_SIZE, ACCOperations), Protocol/AccData, AccNicData and
--   AccConf (each structure as its bytes, with a load and a store for each field at its offset on
--   x86-64), Protocol/Endpoint (SOCK_BASE and the ten channels). The file is acc.h in the root.
-- - accelerator_pcie.c, the device: Device/Log (acc_parse_loglevel, acc_log_init, acc_logv,
--   acc_zframe_recv_logged), Device/Mmio (MMIO_WRITE_BAR, MMIO_READ_BAR, acc_next_txid), Device/Host
--   (handle_hdl_request), Device/Nic (net_tx_packet, net_rx_packet), Device/Serial (the serial
--   callbacks), Device/Msix (the four MSI-X functions), Device/Lifecycle (acc_pcie_class_init,
--   acc_pcie_realize, acc_pcie_exit).
-- - bridge-ip/QEMUPCIeBridge/hdl/dpi-pcie.c: Pcie/Setup (set-up and teardown), Pcie/Log2c, Pcie/Poll
--   (C_poll), Pcie/Request (C_req_read, C_req_write, C_req_interrupt, C_resp_read, C_resp_write).
-- - bridge-ip/nic_sim_bridge/hdl/dpi-nic.c: NicBridge. bridge-ip/uart_sim_1.0/hdl/dpi-uart.c:
--   UartBridge.
-- - System joins the two programs: each file follows one exchange from the function that sends to
--   the one that receives. A frame arrives as it was sent.
-- - Base has what the parts share. Base/Effects gives the computations: a C function makes effects
--   (sends, calls of QEMU) in order and then returns, or ends with `exit`, a failed `assert`, or
--   `undefined`, where C leaves the behaviour undefined. Base/Memory has bytes by offset, loads and
--   stores. Tests applies the theorems to concrete inputs.
--
-- Globals and static state are arguments and results. Integers are natural numbers, with the
-- wrap-around of their type written out. Ports are integers whose overflow is not modelled; where
-- other arithmetic overflows an `int`, the model stops with `undefined`. The loops over sockets run over the list of what the poller finds in turn; the loop of
-- log2c is recursion on the value, which halves; all others count down what is left. No fuel is used.
--
-- Calls of QEMU, CZMQ, GLib and libc are effects, and their answers are arguments: whether a send or
-- a poller succeeds, what a receive returns, `atoi`, `g_ascii_strcasecmp`, and the host's memory
-- (HostMemory, with IsRam for the behaviour of memory). Not modelled: the texts that are logged or
-- printed (but what C leaves undefined in printing them is), failure to allocate a frame or a poller (where the code only asserts it or goes on),
-- registration of the type with QEMU's object model, the callbacks that only log, and the SystemVerilog of the bridges.
pub mod Base
pub mod Protocol
pub mod Device
pub mod Pcie
pub mod NicBridge
pub mod UartBridge
pub mod System
pub mod Tests

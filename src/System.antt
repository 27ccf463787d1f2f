-- ===== src/System.antt =====
-- The two programs together: what one side sends is what the other receives. A frame that is sent
-- on a channel arrives as it is; ZeroMQ delivers the frames of a PUSH and PULL pair in order.
pub mod Channels
pub mod Init
pub mod MmioWrite
pub mod MmioRead
pub mod HostPath
pub mod NicPath
pub mod SerialPath

-- ===== src/Device/Host.antt =====
-- `handle_hdl_request`, which serves what the HDL side asks of the host: reads and writes of its
-- physical memory, and interrupts. QEMU's memory is an interface.
pub mod Serve
pub mod Ram
use qemu_hdl_sim.Base.{
  ℕ, ◌+◌, Bool, true, false, Option, none, some, List, [], ◌∷◌, Bytes, load, copy, Frame, ltb, leb,
  if◌then◌else◌, Exec, ret, stop, emit, exits, undefined, guard, perform, ◌>>=◌, ◌>>◌,
}
use qemu_hdl_sim.Protocol.{AccOp, noop, read, write, intr, init, op_of_code}
use qemu_hdl_sim.Protocol.AccData

-- `cpu_physical_memory_read(address, target, n)` gives the bytes of the target from 0 on, and
-- `cpu_physical_memory_write(address, source, n)` the memory that it leaves.
pub record HostMemory : Type 1 where
  pub Memory : Type 0
  pub fetch : Memory → ℕ → ℕ → Bytes
  pub put : Memory → ℕ → ℕ → Bytes → Memory

-- One round of the loop in which the poller finds `hdl_req` ready: the frame that `zframe_recv`
-- returns, none for NULL, and whether the `zframe_send` of an answer would succeed.
pub record Arrival : Type 0 where
  pub frame : Option Frame
  pub send_ok : Bool

-- What the handler does outside: an answer sent on `hdl_resp`, `cpu_physical_memory_write`, and
-- `msix_notify`.
pub data Effect : Type 0 where
  answered : Frame → Effect
  written : ℕ → ℕ → Bytes → Effect
  notified : ℕ → Effect

-- The bytes of the data buffer of a frame.
abbrev pub payload : Bytes → Bytes
payload b i = AccData.data_at b i

module _ (host : HostMemory) where
  open host use {Memory, fetch, put}

  -- The frame that answers a read: the request with the memory's bytes in its data.
  unfoldable pub answer : Memory → Frame → Frame
  answer m f =
      let n = AccData.data_size f.bytes in
      record f {
        bytes = copy f.bytes AccData.data_offset (fetch m (AccData.address f.bytes) n) 0 n;
      }

  -- The `switch`. A transfer of more bytes than the frame has leaves the frame.
  unfoldable pub dispatch : Memory → Frame → Bool → Option AccOp → Exec Effect Memory
  unfolding answer
  dispatch m f send_ok (some read) = do
    guard (leb (AccData.data_offset + AccData.data_size f.bytes) f.size) undefined
    guard send_ok (exits 1)
    perform (answered (answer m f))
    ret m
  dispatch m f send_ok (some write) = do
    guard (leb (AccData.data_offset + AccData.data_size f.bytes) f.size) undefined
    perform (written (AccData.address f.bytes) (AccData.data_size f.bytes) (payload f.bytes))
    ret (put m (AccData.address f.bytes) (AccData.data_size f.bytes) (payload f.bytes))
  dispatch m f send_ok (some intr) = do perform (notified (AccData.vector f.bytes)); ret m
  dispatch m f send_ok (some noop) = ret m
  dispatch m f send_ok (some init) = ret m
  dispatch m f send_ok none = ret m

  -- One round of the loop after the poll.
  unfoldable pub serve : Memory → Option Frame → Bool → Exec Effect Memory
  unfolding dispatch
  serve m none send_ok = stop (exits 1)
  serve m (some f) send_ok =
      if ltb f.size AccData.size
      then stop (exits 1)
      else dispatch m f send_ok (op_of_code (AccData.op f.bytes))

  -- `handle_hdl_request`: serves what arrives until the poller finds nothing more.
  unfoldable pub handle_hdl_request : Memory → List Arrival → Exec Effect Memory
  handle_hdl_request m [] = ret m
  handle_hdl_request m (a ∷ rest) = do m' ← serve m a.frame a.send_ok; handle_hdl_request m' rest

-- ===== src/Pcie/Poll.antt =====
-- `C_poll` of dpi-pcie.c: what the bridge makes of a frame from QEMU.
pub mod Geometry
pub mod Strobe
use qemu_hdl_sim.Base.{
  ℕ, ◌+◌, ◌-◌, ◌*◌, ◌/◌, ◌%◌, ◌^◌, Bool, Option, none, some, Bytes, load, copy, Frame, ltb, leb,
  ◌==◌, not, if◌then◌else◌, Exec, ret, stop, emit, aborts, undefined, guard, perform, ◌>>=◌, ◌>>◌,
}
use qemu_hdl_sim.Protocol.{QemuOp, nothing, m_rd, m_wr, s_rd, read, op_code, buff_size}
use qemu_hdl_sim.Protocol.AccData
use qemu_hdl_sim.Protocol.AccConf
use qemu_hdl_sim.Pcie.Setup.{Bridge}
use qemu_hdl_sim.Pcie.Log2c.{log2c}

-- The outputs of `C_poll`, which it may leave as they are. `v_data` has BUFF_SIZE bytes.
pub record Signals : Type 0 where
  pub req_type : QemuOp
  pub v_addr : ℕ
  pub v_len : ℕ
  pub v_size : ℕ
  pub v_strb : ℕ
  pub v_data : Bytes

-- The socket that `zpoller_wait` returns, and what `zframe_recv` then returns.
pub data Ready : Type 0 where
  idle init_ready : Ready
  qemu_ready hdl_ready : Option Frame → Ready

-- The configuration, sent on `initsock2`.
pub data Effect : Type 0 where
  conf_sent : Frame → Effect

-- The bursts of an access: one beat less than their number.
unfoldable pub axi_len : ℕ → ℕ → ℕ
axi_len busw size =
    if ltb busw size then (if size % busw == 0 then size / busw - 1 else size / busw) else 0

-- `*v_strb = (1 << size) - 1; *v_strb <<= align_offset`. The first shift is one of the `int` 1,
-- undefined from 31 on, the second one of an `unsigned long`, undefined from 64 on.
unfoldable pub strobe : ℕ → ℕ → Exec Effect ℕ
strobe size align_offset = do
  guard (ltb size 31) undefined
  guard (ltb align_offset 64) undefined
  ret ((2 ^ size - 1) * 2 ^ align_offset % 2 ^ 64)

module _ (bridge : Bridge) where
  -- The address on the bus: the offset of the BAR is added.
  unfoldable pub bus_address : Bytes → ℕ
  bus_address b = (AccData.address b + AccConf.bar_offset (AccData.bar_num b) bridge.conf) % 2 ^ 64

  unfoldable pub align_offset : ℕ → ℕ
  align_offset addr = addr % bridge.busw % 2 ^ 32

  -- A request of QEMU. An index past the six BARs and a division by 0 are undefined. `align` is
  -- below 64 where the data are copied, so that they stay in `v_data`.
  unfoldable pub take_request : Bytes → Signals → Exec Effect Signals
  unfolding bus_address align_offset axi_len strobe
  take_request b s = do
    guard (ltb (AccData.bar_num b) 6) undefined
    guard (not (bridge.busw == 0)) undefined
    let addr = bus_address b
    let size = AccData.data_size b
    let align = align_offset addr
    if AccData.op b == op_code read
        then ret (record s {
          req_type = m_rd;
          v_addr = addr;
          v_len = axi_len bridge.busw size;
          v_size = log2c size;
        })
        else (do
          strb ← strobe size align
          ret (record s {
            req_type = m_wr;
            v_addr = addr;
            v_len = axi_len bridge.busw size;
            v_size = log2c size;
            v_strb = strb;
            v_data = copy s.v_data align b AccData.data_offset (buff_size - align);
          }))

  -- An answer of QEMU to a read of host memory.
  unfoldable pub take_response : Bytes → Signals → Exec Effect Signals
  unfolding align_offset
  take_response b s = do
    guard (not (bridge.busw == 0)) undefined
    let align = align_offset (AccData.address b)
    guard (leb (align + AccData.data_size b) buff_size) undefined
    ret (record s {
      req_type = s_rd;
      v_data = copy s.v_data align b AccData.data_offset (AccData.data_size b);
    })

  -- `C_poll`. It does not look at the size of a frame: a short one is read past its end.
  unfoldable pub poll : Ready → Signals → Exec Effect Signals
  unfolding take_request take_response
  poll idle s = ret (record s { req_type = nothing })
  poll init_ready s = do
    perform (conf_sent (record { size = AccConf.size; bytes = bridge.conf }))
    ret (record s { req_type = nothing })
  poll (qemu_ready none) s = stop aborts
  poll (qemu_ready (some f)) s = do
    guard (leb AccData.size f.size) undefined
    take_request f.bytes s
  poll (hdl_ready none) s = stop aborts
  poll (hdl_ready (some f)) s = do
    guard (leb AccData.size f.size) undefined
    take_response f.bytes s

-- ===== src/NicBridge.antt =====
-- bridge-ip/nic_sim_bridge/hdl/dpi-nic.c, the DPI side of the NIC. What it prints is not modelled.
pub mod Beats
use Prim.Native.String.{String}
use qemu_hdl_sim.Base.{
  ℕ, ◌+◌, ◌-◌, ◌/◌, ◌%◌, ◌^◌, Bool, Option, none, some, ℤ, pos, ◌+ℤ◌, Bytes, copy, Frame, ltb, leb,
  not, ◌==◌, if◌then◌else◌, Exec, ret, stop, aborts, undefined, guard, perform, ◌>>◌,
}
use qemu_hdl_sim.Protocol.{buff_size}
use qemu_hdl_sim.Protocol.AccNicData
use qemu_hdl_sim.Protocol.Endpoint.{Opened, Channel, nic_req, nic_resp, sender, receiver}

pub data Effect : Type 0 where
  opened : Channel → Opened → Effect
  poller_made : Effect
  sent : Channel → Frame → Effect
  destroyed : Channel → Effect

-- The sockets that the NIC bridge opens.
unfoldable pub open_sockets : ℤ → Exec Effect (Unit {0})
open_sockets port = do
  perform (opened nic_req (receiver (port +ℤ pos 4)))
  perform (opened nic_resp (sender (port +ℤ pos 5)))

module _ (atoi : String → ℤ) where
  -- `C_setup_nic_connection` returns the BUSW that it sets. `made` is the `assert` of the sockets,
  -- `poller_ok` that of the poller.
  unfoldable pub setup_nic_connection : ℕ → Option String → Bool → Bool → Exec Effect ℕ
  unfolding open_sockets
  setup_nic_connection bus_width none made poller_ok = stop undefined
  setup_nic_connection bus_width (some port_str) made poller_ok = do
    open_sockets (atoi port_str)
    guard made aborts
    guard poller_ok aborts
    perform poller_made
    ret bus_width

-- `C_teardown_nic_connection`
unfoldable pub teardown_nic_connection : Exec Effect (Unit {0})
teardown_nic_connection = do perform (destroyed nic_req); perform (destroyed nic_resp)

-- `C_send_packet`. `data_tmp` is the HDL's array of BUFF_SIZE bytes, which the loop that prints it
-- reads up to `size`; `acc_data` is what the stack holds.
unfoldable pub send_packet : ℕ → ℕ → Bytes → Bytes → Bool → Exec Effect (Unit {0})
send_packet id size data_tmp acc_data send_ok = do
  let header = AccNicData.set_size size (AccNicData.set_id id acc_data)
  let packet = copy header AccNicData.data_offset data_tmp 0 buff_size
  guard send_ok aborts
  perform (sent nic_resp (record { size = AccNicData.struct_size; bytes = packet }))
  guard (leb size buff_size) undefined

-- The outputs of `C_nic_poll`. `vdata` has BUFF_SIZE bytes.
pub record Signals : Type 0 where
  pub req : ℕ
  pub vlen : ℕ
  pub vkeep : ℕ
  pub vdata : Bytes

-- The number of beats of a packet, less one, as a `uint32_t`.
unfoldable pub beats : ℕ → ℕ → ℕ
beats busw size = if size % busw == 0 then (size / busw + 2 ^ 32 - 1) % 2 ^ 32 else size / busw

-- The lanes of the last beat that hold bytes, as a `uint64_t` with a bit for each.
unfoldable pub last_keep : ℕ → ℕ → ℕ
last_keep busw size = if size % busw == 0 then 2 ^ 64 - 1 else 2 ^ (size % busw) - 1

-- `C_nic_poll` once a frame is there. It does not look at the size of the frame.
unfoldable pub take_packet : ℕ → Frame → Signals → Exec Effect Signals
unfolding beats last_keep
take_packet busw f s = do
  guard (leb AccNicData.struct_size f.size) undefined
  guard (not (busw == 0)) undefined
  let size = AccNicData.size f.bytes
  guard (ltb (size % busw) 64) undefined
  guard (leb size buff_size) undefined
  ret (record {
    req = 1;
    vlen = beats busw size;
    vkeep = last_keep busw size;
    vdata = copy s.vdata 0 f.bytes AccNicData.data_offset buff_size;
  })

-- `C_nic_poll`. `arrived` is none if the poller finds nothing; otherwise it holds what
-- `zframe_recv` returns.
unfoldable pub nic_poll : ℕ → Option (Option Frame) → Signals → Exec Effect Signals
unfolding take_packet
nic_poll busw none s = ret (record s { req = 0 })
nic_poll busw (some none) s = stop aborts
nic_poll busw (some (some f)) s = take_packet busw f (record s { req = 0 })

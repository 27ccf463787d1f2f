-- ===== src/Device/Lifecycle.antt =====
-- The life of the device: `acc_pcie_class_init`, `acc_pcie_realize` and `acc_pcie_exit`. `atoi` is
-- an argument, and so is what QEMU, ZeroMQ and the environment answer.
pub mod Bars
pub mod Sockets
pub mod Start
use Prim.Native.Nat.{bit_or}
use Prim.Native.String.{String}
use qemu_hdl_sim.Base.{
  ℕ, zero, suc, ◌+◌, ◌%◌, ◌^◌, Bool, ◌&&◌, Option, none, some, ℤ, pos, negsuc, ◌+ℤ◌, Bytes, zeroes,
  copy, Frame, ltb, ◌==◌, if◌then◌else◌, Exec, ret, stop, emit, exits, aborts, guard, perform, lift,
  ◌>>◌,
}
use qemu_hdl_sim.Protocol.{init, op_code}
use qemu_hdl_sim.Protocol.AccData
use qemu_hdl_sim.Protocol.AccConf
use qemu_hdl_sim.Protocol.Endpoint.{
  Opened, Channel, init_req, init_resp, qemu_req, qemu_resp, hdl_req, hdl_resp, nic_req, nic_resp,
  serial_rx, serial_tx, sender, receiver,
}
use qemu_hdl_sim.Device.Mmio.{next_txid}
use qemu_hdl_sim.Device.Msix
use qemu_hdl_sim.Device.Log.{is_empty}

-- The callbacks that are registered for a socket's file descriptor.
pub data Handler : Type 0 where
  handles_hdl_request transmits_packets transmits_serial : Handler

pub data Effect : Type 0 where
  error_set command_set nic_created serial_ready : Effect
  bar_registered : ℕ → ℕ → ℕ → Effect
  opened : Channel → Opened → Effect
  sent : Channel → Frame → Effect
  destroyed : Channel → Effect
  handler_set : Channel → Handler → Effect
  msix : Msix.Effect → Effect

-- The attributes of the BARs: PCI_BASE_ADDRESS_SPACE_MEMORY is 0, MEM_TYPE_64 is 4 and
-- MEM_PREFETCH is 8.
unfoldable pub bar_attr : Bytes → ℕ
bar_attr conf =
    let memory : ℕ = 0 in
    let attr = if AccConf.is_64 conf == 0 then memory else bit_or memory 4 in
    if AccConf.prefetch conf == 0 then attr else bit_or attr 8

-- The loop over the BARs, from `i` on with `left` rounds left: `memory_region_init_io` and
-- `pci_register_bar` for each valid one.
unfoldable pub register_bars : Bytes → ℕ → ℕ → Exec Effect (Unit {0})
unfolding bar_attr
register_bars conf zero i = ret tt
register_bars conf (suc left) i =
    let rest = register_bars conf left (i + 1) in
    if AccConf.bar_is_valid i conf == 0
    then rest
    else emit (bar_registered i (bar_attr conf) (AccConf.bar_size i conf)) rest

-- `assert` of the sockets, where `made` tells which of them `zsock_new` made.
abbrev pub all_made : (Channel → Bool) → Bool
all_made made =
    made qemu_req
    && (made qemu_resp
        && (made hdl_req
            && (made hdl_resp
                && (made nic_req && (made nic_resp && (made serial_tx && made serial_rx))))))

-- The sockets that `acc_pcie_realize` opens.
unfoldable pub open_sockets : ℤ → Exec Effect (Unit {0})
open_sockets port = do
  perform (opened qemu_req (sender port))
  perform (opened qemu_resp (receiver (port +ℤ pos 1)))
  perform (opened hdl_req (receiver (port +ℤ pos 2)))
  perform (opened hdl_resp (sender (port +ℤ pos 3)))
  perform (opened nic_req (sender (port +ℤ pos 4)))
  perform (opened nic_resp (receiver (port +ℤ pos 5)))
  perform (opened serial_rx (sender (port +ℤ pos 8)))
  perform (opened serial_tx (receiver (port +ℤ pos 9)))

-- What the surroundings of `acc_pcie_realize` answer: which sockets were made, for which
-- `zmq_getsockopt` gave a descriptor, whether `msix_init` succeeded, and `msix_entries_nr`.
pub record Answers : Type 0 where
  pub made : Channel → Bool
  pub has_fd : Channel → Bool
  pub msix_ok : Bool
  pub msix_entries : ℕ

-- `acc_pcie_realize` from the BARs on, with the port read.
unfoldable pub realize_at : ℤ → Bytes → Answers → Exec Effect (Unit {0})
unfolding register_bars open_sockets Msix.init_msix
realize_at port conf env = do
  perform command_set
  register_bars conf 6 0
  open_sockets port
  guard (all_made env.made) aborts
  guard (env.has_fd hdl_req) (exits 1)
  perform (handler_set hdl_req handles_hdl_request)
  guard (env.has_fd nic_resp) (exits 1)
  perform (handler_set nic_resp transmits_packets)
  guard (env.has_fd serial_tx) (exits 1)
  perform (handler_set serial_tx transmits_serial)
  perform nic_created
  lift msix (Msix.init_msix conf env.msix_ok env.msix_entries)
  perform serial_ready

module _ (atoi : String → ℤ) where
  -- `acc_pcie_realize`. `port_str` is the variable NPU_COSIM_PORT.
  unfoldable pub realize : Option String → Bytes → Answers → Exec Effect (Unit {0})
  unfolding realize_at
  realize none conf env = perform error_set
  realize (some port_str) conf env =
      if is_empty port_str then perform error_set else realize_at (atoi port_str) conf env

-- `acc_pcie_exit`; `present` is `msix_present`.
unfoldable pub exit : Bytes → Bool → Exec Effect (Unit {0})
unfolding Msix.cleanup_msix
exit conf present = do
  lift msix (Msix.cleanup_msix conf present)
  perform (destroyed hdl_req)
  perform (destroyed hdl_resp)
  perform (destroyed qemu_req)
  perform (destroyed qemu_resp)
  perform (destroyed nic_req)
  perform (destroyed nic_resp)

-- The request of the start-up exchange.
unfoldable pub init_request : ℕ → Bytes
unfolding next_txid
init_request counter = AccData.set_id ((next_txid counter).0 % 2 ^ 32) (
    AccData.set_data_size 32
      (AccData.set_op (op_code init) (AccData.set_address 9999 (AccData.set_bar_num 16 zeroes))))

-- What `acc_pcie_class_init` sets: `hdlconf_storage`, the transaction counter, and the class.
pub record Class : Type 0 where
  pub hdlconf : Bytes
  pub counter : ℕ
  pub vendor_id : ℕ
  pub device_id : ℕ
  pub revision : ℕ

-- What `acc_pcie_class_init` makes of the answer, none for NULL.
unfoldable pub configure : ℕ → Bytes → Option Frame → Exec Effect Class
configure counter storage none = stop (exits 1)
configure counter storage (some f) = if ltb f.size AccConf.size then stop (exits 1) else do
  let conf = copy storage 0 f.bytes 0 AccConf.size
  perform (destroyed init_req)
  perform (destroyed init_resp)
  ret (record {
    hdlconf = conf;
    counter = counter;
    vendor_id = AccConf.vendor_id conf;
    device_id = AccConf.device_id conf;
    revision = 1;
  })

-- `acc_pcie_class_init` from the request on.
unfoldable pub class_init_at : ℤ → ℕ → Bytes → Bool → Option Frame → Exec Effect Class
unfolding init_request configure
class_init_at port counter storage send_ok reply = do
  perform (opened init_req (sender (port +ℤ negsuc 0)))
  guard send_ok aborts
  perform (sent init_req (record { size = AccData.size; bytes = init_request counter }))
  perform (opened init_resp (receiver (port +ℤ pos 10)))
  configure (next_txid counter).1 storage reply

module _ (atoi : String → ℤ) where
  -- `acc_pcie_class_init`
  unfoldable pub class_init : Option String → ℕ → Bytes → Bool → Option Frame → Exec Effect Class
  unfolding class_init_at
  class_init none counter storage send_ok reply = stop (exits 1)
  class_init (some port_str) counter storage send_ok reply =
      if is_empty port_str
      then stop (exits 1)
      else class_init_at (atoi port_str) counter storage send_ok reply

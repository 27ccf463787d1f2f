-- ===== src/Device/Nic.antt =====
-- The NIC side of accelerator_pcie.c: packets from the HDL side to QEMU's network, and back.
use qemu_hdl_sim.Base.{
  ℕ, ◌+◌, ◌%◌, ◌^◌, Option, none, some, List, [], ◌∷◌, Bytes, zeroes, copy, Frame, ltb, leb,
  if◌then◌else◌, Exec, ret, stop, aborts, exits, undefined, guard, perform, ◌>>◌, Bool,
}
use qemu_hdl_sim.Protocol.{buff_size}
use qemu_hdl_sim.Protocol.AccNicData

-- `qemu_send_packet` with the bytes and their number, and a frame sent on `nic_req`.
pub data Effect : Type 0 where
  packet_sent : Bytes → ℕ → Effect
  forwarded : Frame → Effect

-- The data buffer of a frame.
abbrev pub payload : Bytes → Bytes
payload b i = AccNicData.data_at b i

-- One round of the loop of `net_tx_packet` in which `nic_resp` is ready. `zframe_recv` returns the
-- frame, none for NULL. A size that reaches past the frame is a read past it.
unfoldable pub transmit : Option Frame → Exec Effect (Unit {0})
transmit none = stop aborts
transmit (some f) = if ltb f.size AccNicData.struct_size then stop (exits 1) else do
  guard (leb (AccNicData.data_offset + AccNicData.size f.bytes) f.size) undefined
  perform (packet_sent (payload f.bytes) (AccNicData.size f.bytes))

-- `net_tx_packet`: all frames that are waiting, in order.
unfoldable pub net_tx_packet : List (Option Frame) → Exec Effect (Unit {0})
unfolding transmit
net_tx_packet [] = ret tt
net_tx_packet (f ∷ rest) = do transmit f; net_tx_packet rest

-- The ACCNICData of a packet.
unfoldable pub packet_data : Bytes → ℕ → Bytes
packet_data buf size =
    copy (AccNicData.set_id 1 (AccNicData.set_size (size % 2 ^ 32) zeroes)) AccNicData.data_offset
      buf 0 size

-- `net_rx_packet`. The `memcpy` of `size` bytes goes into a buffer of BUFF_SIZE; more overrun the
-- stack. `send_ok` says whether `zframe_send` succeeds.
unfoldable pub net_rx_packet : Bytes → ℕ → Bool → Exec Effect ℕ
unfolding packet_data
net_rx_packet buf size send_ok = do
  guard (leb size buff_size) undefined
  guard send_ok aborts
  perform (forwarded (record { size = AccNicData.struct_size; bytes = packet_data buf size }))
  ret size

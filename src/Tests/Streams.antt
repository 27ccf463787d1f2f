-- ===== src/Tests/Streams.antt =====
-- Packets and characters at concrete inputs.
use qemu_hdl_sim.Base.{
  ◌+◌, ◌*◌, ◌≤◌, ◌<◌, ◌≡◌, arith, true, some, [], ◌∷◌, Bytes, zeroes, Frame, effects, result,
  returns, halts, undefined,
}
use qemu_hdl_sim.Protocol.Endpoint.{nic_resp}
use qemu_hdl_sim.Device.Nic.{packet_sent, net_tx_packet, net_rx_packet}
use qemu_hdl_sim.Device.Nic as Nic
use qemu_hdl_sim.Device.Serial.{char_written, serial_can_rx, serial_rx, serial_tx}
use qemu_hdl_sim.Device.Serial as Serial
use qemu_hdl_sim.NicBridge.{Signals, sent, send_packet, beats, last_keep, nic_poll}
use qemu_hdl_sim.NicBridge.Beats.{last_keep-bit}
use qemu_hdl_sim.UartBridge
use qemu_hdl_sim.Pcie.Poll.Strobe.{bit}
use qemu_hdl_sim.System.NicPath.{net_rx_packet-nic_poll, send_packet-net_tx_packet}
use qemu_hdl_sim.System.SerialPath.{transmitted, uart_tx-serial_tx, serial_rx-uart_rx}
use qemu_hdl_sim.Tests.Mmio.{lanes}

abbrev signals : Signals
signals = record { req = 0; vlen = 0; vkeep = 0; vdata = zeroes }

last_keep-bit_example :
    (beats 8 20 * 8 < 20) × (20 ≤ (beats 8 20 + 1) * 8) × (bit (last_keep 8 20) 4 ≡ 0)
unfolding beats
last_keep-bit_example =
    last_keep-bit 8 20 4 (omega arith) (omega arith) (omega arith) (omega arith) (omega arith)

net_rx_packet-nic_poll_example :
    (f : Frame) × (t : Signals) × (effects (net_rx_packet lanes 20 true) ≡ Nic.forwarded f ∷ [])
    × (result (nic_poll 8 (some (some f)) signals) ≡ returns t)
    × (t.vlen ≡ 2)
    × (t.vdata 19 ≡ 29)
unfolding beats
net_rx_packet-nic_poll_example =
    let (f, t, out, size, run, req, len, keep, data_) =
      net_rx_packet-nic_poll 8 20 lanes signals (omega arith) (omega arith) (omega arith) in
    (f, t, out, run, len, data_ 19 (omega arith))

send_packet-net_tx_packet_example :
    (f : Frame) × (b : Bytes) × (effects (send_packet 3 20 lanes zeroes true)
      ≡ sent nic_resp f ∷ [])
    × (effects (net_tx_packet (some f ∷ [])) ≡ packet_sent b 20 ∷ [])
    × (b 19 ≡ 29)
send_packet-net_tx_packet_example =
    let (f, b, out, run, ended, data_) =
      send_packet-net_tx_packet 3 20 lanes zeroes (omega arith) in
    (f, b, out, run, data_ 19 (omega arith))

uart_tx-serial_tx_example :
    (effects (serial_tx (transmitted (72 ∷ 361 ∷ []))) ≡ char_written 72 ∷ char_written 105 ∷ [])
    × (result (serial_tx (transmitted (72 ∷ 361 ∷ []))) ≡ returns tt)
uart_tx-serial_tx_example = uart_tx-serial_tx (72 ∷ 361 ∷ [])

serial_rx-uart_rx_example :
    (f : Frame) × (effects (serial_rx lanes 1) ≡ Serial.forwarded f ∷ [])
    × (result (UartBridge.uart_rx (some (some f)) 0) ≡ halts undefined)
unfolding serial_can_rx
serial_rx-uart_rx_example = serial_rx-uart_rx lanes 1 0 (omega arith)

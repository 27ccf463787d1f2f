-- ===== src/Tests/Bridge.antt =====
-- The bridges' set-up, bursts and strobes at concrete inputs.
use Prim.Native.String.{String}
use qemu_hdl_sim.Base.{
  Bytes, ret, ◌+◌, ◌%◌, ◌↔◌, ℕ, ◌+◌, ◌*◌, ◌^◌, ◌≤◌, ◌<◌, ◌≡◌, arith, true, some, [], ◌∷◌, ℤ, pos,
  zeroes, Frame, effects, result, returns, ltb, if◌then◌else◌, ◌⊎◌,
}
use qemu_hdl_sim.Protocol.Endpoint.{serial_tx, Opened}
use qemu_hdl_sim.Device.Lifecycle.{Class, class_init_at}
use qemu_hdl_sim.Pcie.Setup.{Parameters}
use qemu_hdl_sim.Pcie.Setup.Fields.{InRange, setup_pcie_connection-IsConfigured}
use qemu_hdl_sim.Pcie.Log2c.{log2c, log2c_lem}
use qemu_hdl_sim.Pcie.Poll.{axi_len, strobe, init_ready, conf_sent, poll}
use qemu_hdl_sim.Pcie.Poll.Geometry.{burst_end, burst_end_iff, transfer_size-axi_len, axi_len_wide}
use qemu_hdl_sim.Pcie.Poll.Strobe.{bit, strobe-bit}
use qemu_hdl_sim.Pcie.Request.{transfer_size}
use qemu_hdl_sim.System.Init.{class_init-IsConfigured}
use qemu_hdl_sim.System.Channels.{find_end, qemu_side, hdl_side, Mates, channels_mate}
use qemu_hdl_sim.Tests.Mmio.{signals}

-- One BAR of 16 bytes at 0x40000000.
abbrev parameters : Parameters
parameters = record {
  busw = 8;
  vendorid = 4334;
  deviceid = 28673;
  attributes = 1;
  valid_bars = λ i. if ltb i 1 then 1 else 0;
  bar_size = λ i. 4;
  bar_offset = λ i. 1073741824;
  msix_vec_num = 4;
  msix_table_bar = 0;
  msix_table_offset = 32768;
  msix_pba_bar = 0;
  msix_pba_offset = 49152;
}

abbrev in_range : InRange parameters
in_range = record {
  vendorid = omega arith;
  deviceid = omega arith;
  bar_size = λ i. omega arith;
  bar_offset = λ i. omega arith;
  msix_vec_num = omega arith;
  msix_table_bar = omega arith;
  msix_table_offset = omega arith;
  msix_pba_bar = omega arith;
  msix_pba_offset = omega arith;
}

abbrev atoi : String → ℤ
atoi s = pos 7000

class_init-IsConfigured_example :
    (conf : Bytes) × (f : Frame) × (k : Class) × (effects
        (poll (record { busw = 8; conf = conf }) init_ready signals)
      ≡ conf_sent f ∷ [])
    × (result (class_init_at (pos 7000) 0 zeroes true (some f)) ≡ returns k)
    × (k.vendor_id ≡ 4334)
    × (k.device_id ≡ 28673)
class_init-IsConfigured_example =
    let (conf, set, made, ends) =
      setup_pcie_connection-IsConfigured parameters zeroes in_range atoi "7000" in
    let (f, k, out, got, same, vendor, device) =
      class_init-IsConfigured parameters (record { busw = 8; conf = conf }) signals (pos 7000) 0
        zeroes made in
    (conf, f, k, out, got, vendor, device)

channels_mate_example :
    (a b : Opened) × (find_end serial_tx (qemu_side (pos 7000)) ≡ some a)
    × (find_end serial_tx (hdl_side (pos 7000)) ≡ some b)
    × (Mates a b ⊎ Mates b a)
channels_mate_example = channels_mate (pos 7000) serial_tx

log2c_lem_example : (9 ≤ 2 ^ log2c 9) × ((j : ℕ) → 9 ≤ 2 ^ j → log2c 9 ≤ j)
log2c_lem_example = log2c_lem 9 (omega arith) (omega arith)

-- Four bytes from lane 62 of 64 on.
burst_end_iff_example :
    (62 + 4 ≤ burst_end 64 62 4) ↔ ((64 < 4) ⊎ (62 % 2 ^ log2c 4 + 4 ≤ 2 ^ log2c 4))
burst_end_iff_example = burst_end_iff 64 62 4 (omega arith) (omega arith) (omega arith)

transfer_size-axi_len_example :
    (axi_len 8 (2 ^ 2) ≡ 0) × (transfer_size (log2c (2 ^ 2)) (axi_len 8 (2 ^ 2)) ≡ 2 ^ 2)
transfer_size-axi_len_example = transfer_size-axi_len 8 2 (omega arith) (omega arith)

axi_len_wide_example : (4 < 2 ^ log2c 8) × (2 * 8 ≤ transfer_size (log2c 8) (axi_len 4 8))
axi_len_wide_example = axi_len_wide 4 8 (omega arith) (omega arith) (omega arith)

strobe-bit_example : (strb : ℕ) × (strobe 2 6 ≡ ret strb) × (bit strb 7 ≡ 1) × (bit strb 8 ≡ 0)
strobe-bit_example =
    let (strb, defined, lanes) = strobe-bit 2 6 (omega arith) (omega arith) in
    (strb, defined, lanes 7 (omega arith), lanes 8 (omega arith))

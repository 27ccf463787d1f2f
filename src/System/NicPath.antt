-- ===== src/System/NicPath.antt =====
-- Packets between QEMU's network and the HDL's stream, both ways.
use native.Mathlib.Nat.{mod-lt}
use qemu_hdl_sim.Base.{
  ℕ, ◌+◌, ◌%◌, ◌^◌, ◌≤◌, ◌<◌, ◌≡◌, refl, sym, ap, ◌∙◌, arith, inl, true, false, some, [], ◌∷◌,
  Bytes, zeroes, load, store, copy, Frame, ltb, leb, ◌==◌, effects, result, returns,
}
use qemu_hdl_sim.Base.Memory.Laws.{copy_inside, load-copy_apart, load-store_self}
use qemu_hdl_sim.Protocol.{buff_size}
use qemu_hdl_sim.Protocol.AccNicData
use qemu_hdl_sim.Protocol.Endpoint.{nic_resp}
use qemu_hdl_sim.Device.Nic.{
  forwarded, packet_sent, payload, transmit, net_tx_packet, packet_data, net_rx_packet,
}
use qemu_hdl_sim.NicBridge.{Signals, sent, send_packet, beats, last_keep, take_packet, nic_poll}

packet_size :
    (buf : Bytes) (size : ℕ) → size ≤ buff_size → AccNicData.size (packet_data buf size) ≡ size
unfolding packet_data load store
packet_size buf size h =
    load-copy_apart 4 4 _ 12 buf 0 size (inl (omega arith))
    ∙ load-store_self 4 4 (size % 2 ^ 32) zeroes
    ∙ omega arith

packet_byte :
    (buf : Bytes) (size i : ℕ) → i < size → AccNicData.data_at (packet_data buf size) i ≡ buf i
unfolding packet_data
packet_byte buf size i h = copy_inside _ 12 buf 0 size i h ∙ ap buf (omega arith)

-- A packet of the network reaches the HDL: for a packet of at most BUFF_SIZE bytes and a bus of up
-- to 64 bytes, `net_rx_packet` sends one frame and returns the size. For that frame `C_nic_poll`
-- raises the request, with the beats and lanes of that size and with the bytes of the packet. The
-- bus has at least 1 byte, and the send succeeds.
pub net_rx_packet-nic_poll :
    (busw size : ℕ) (buf : Bytes) (s : Signals)
    → 0 < busw
    → busw ≤ 64
    → size ≤ buff_size
    → (f : Frame) × (t : Signals) × (effects (net_rx_packet buf size true) ≡ forwarded f ∷ [])
      × (result (net_rx_packet buf size true) ≡ returns size)
      × (result (nic_poll busw (some (some f)) s) ≡ returns t)
      × (t.req ≡ 1)
      × (t.vlen ≡ beats busw size)
      × (t.vkeep ≡ last_keep busw size)
      × ((i : ℕ) → i < size → t.vdata i ≡ buf i)
unfolding net_rx_packet nic_poll take_packet
net_rx_packet-nic_poll busw size buf s pos narrow fits =
    let b = packet_data buf size in
    let same = packet_size buf size fits in
    let known : leb size buff_size ≡ true = ground arith in
    let some_bus : (busw == 0) ≡ false = ground arith in
    let kept : ltb (AccNicData.size b % busw) 64 ≡ true =
      rw same (ground (arith, mod-lt size pos)) in
    let inside : leb (AccNicData.size b) buff_size ≡ true = rw same known in
    (
      record { size = AccNicData.struct_size; bytes = b },
      record {
        req = 1;
        vlen = beats busw (AccNicData.size b);
        vkeep = last_keep busw (AccNicData.size b);
        vdata = copy s.vdata 0 b AccNicData.data_offset buff_size;
      },
      rw known refl,
      rw known refl,
      rw (some_bus, kept, inside) refl,
      refl,
      ap (beats busw) same,
      ap (last_keep busw) same,
      λ i h.
          let zero_on : 0 + i ≡ i = omega arith in
          ap (copy s.vdata 0 b 12 buff_size) (sym zero_on)
          ∙ copy_inside s.vdata 0 b 12 buff_size i (omega arith)
          ∙ packet_byte buf size i h,
    )

-- A packet of the HDL reaches the network: for a packet of at most BUFF_SIZE bytes,
-- `C_send_packet` sends one frame, and for that frame `net_tx_packet` returns and has handed one
-- packet of that size to QEMU, with the bytes of the HDL's array. The send succeeds.
pub send_packet-net_tx_packet :
    (id size : ℕ) (data_tmp acc_data : Bytes)
    → size ≤ buff_size
    → (f : Frame) × (b : Bytes) × (effects (send_packet id size data_tmp acc_data true)
        ≡ sent nic_resp f ∷ [])
      × (effects (net_tx_packet (some f ∷ [])) ≡ packet_sent b size ∷ [])
      × (result (net_tx_packet (some f ∷ [])) ≡ returns tt)
      × ((i : ℕ) → i < size → b i ≡ data_tmp i)
unfolding send_packet net_tx_packet transmit load store
send_packet-net_tx_packet id size data_tmp acc_data fits =
    let header = AccNicData.set_size size (AccNicData.set_id id acc_data) in
    let b = copy header AccNicData.data_offset data_tmp 0 buff_size in
    let same : AccNicData.size b ≡ size =
      load-copy_apart 4 4 header 12 data_tmp 0 buff_size (inl (omega arith))
      ∙ load-store_self 4 4 size (AccNicData.set_id id acc_data)
      ∙ omega arith in
    let known : leb size buff_size ≡ true = ground arith in
    let inside : leb (AccNicData.data_offset + AccNicData.size b) AccNicData.struct_size ≡ true =
      rw same (ground arith) in
    (
      record { size = AccNicData.struct_size; bytes = b },
      payload b,
      rw known refl,
      rw inside (ap (λ (n : ℕ). packet_sent (payload b) n ∷ []) same),
      rw inside refl,
      λ i h. copy_inside header 12 data_tmp 0 buff_size i (omega arith) ∙ ap data_tmp (omega arith),
    )

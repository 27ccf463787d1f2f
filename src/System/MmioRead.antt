-- ===== src/System/MmioRead.antt =====
-- A read of the guest from a BAR: from `mmio_read_bar` to the signals of `C_poll`, and from
-- `C_resp_read` back to the value that the guest gets.
use native.Mathlib.Nat.{mod-lt}
use qemu_hdl_sim.Base.{
  ℕ, zero, suc, ◌+◌, ◌-◌, ◌%◌, ◌^◌, ◌≤◌, ◌<◌, ◌≡◌, ◌⊎◌, inl, inr, refl, ◌∙◌, ap, arith, true, false,
  none, some, [], ◌∷◌, Bytes, load, copy, Frame, ltb, leb, ◌==◌, ret, effects, result, returns,
}
use qemu_hdl_sim.Base.Memory.Laws.{copy_inside}
use qemu_hdl_sim.Protocol.{m_rd, op_code, read, buff_size}
use qemu_hdl_sim.Protocol.AccData
use qemu_hdl_sim.Protocol.Endpoint.{qemu_resp}
use qemu_hdl_sim.Device.Mmio.{mmio_read, read_value, data_of_size}
use qemu_hdl_sim.Device.Mmio.Laws.{IsRequest, mmio_read-IsRequest}
use qemu_hdl_sim.Pcie.Setup.{Bridge}
use qemu_hdl_sim.Pcie.Log2c.{log2c}
use qemu_hdl_sim.Pcie.Poll.{Signals, qemu_ready, axi_len, bus_address, take_request, poll}
use qemu_hdl_sim.Pcie.Request.{sent, resp_read}
use qemu_hdl_sim.System.MmioWrite.{target, lane, announced, Announces}

-- The sizes of an access of the guest.
abbrev pub IsAccessSize : ℕ → Type 0
IsAccessSize size = (size ≡ 1) ⊎ (size ≡ 2) ⊎ (size ≡ 4) ⊎ (size ≡ 8)

data_of_size-load :
    (size : ℕ) (b : Bytes)
    → IsAccessSize size
    → data_of_size size b ≡ load size AccData.data_offset b
unfolding data_of_size
data_of_size-load size b (inl e) = rw e refl
data_of_size-load size b (inr (inl e)) = rw e refl
data_of_size-load size b (inr (inr (inl e))) = rw e refl
data_of_size-load size b (inr (inr (inr e))) = rw e refl

-- A load of bytes that stand elsewhere.
load_moved :
    (w at at' : ℕ) (b c : Bytes)
    → ((i : ℕ) → i < w → b (at + i) ≡ c (at' + i))
    → load w at b ≡ load w at' c
unfolding load
load_moved zero at at' b c h = refl
load_moved (suc w) at at' b c h =
    let first : b at ≡ c at' = ap b (omega arith) ∙ h 0 (omega arith) ∙ ap c (omega arith) in
    omega (
      arith,
      first,
      load_moved w (suc at) (suc at') b c
          (λ i p. ap b (omega arith) ∙ h (suc i) (omega arith) ∙ ap c (omega arith)),
    )

module _ (bridge : Bridge) (num addr size : ℕ) (wide : 0 < bridge.busw)
    (narrow : bridge.busw ≤ 2048) (bar : num < 6) where
  -- `C_poll` on a request of a read.
  poll-read :
      {id : ℕ} (f : Frame) (s : Signals)
      → IsRequest num id addr (op_code read) size f
      → (t : Signals) × (poll bridge (qemu_ready (some f)) s ≡ ret t)
        × Announces bridge num addr size m_rd t
  unfolding poll take_request
  poll-read f s r =
      let whole : leb AccData.size f.size ≡ true = rw r.whole refl in
      let known : ltb (AccData.bar_num f.bytes) 6 ≡ true = rw r.bar_field (ground arith) in
      let some_bus : (bridge.busw == 0) ≡ false = ground arith in
      let is_read : (AccData.op f.bytes == op_code read) ≡ true = rw r.op_field refl in
      let to = (announced bridge num addr size f wide (omega arith) r).0 in
      (
        record s {
          req_type = m_rd;
          v_addr = bus_address bridge f.bytes;
          v_len = axi_len bridge.busw (AccData.data_size f.bytes);
          v_size = log2c (AccData.data_size f.bytes);
        },
        rw (whole, known, some_bus, is_read) refl,
        record {
          req_type = refl;
          v_addr = to;
          v_len = ap (axi_len bridge.busw) r.size_field;
          v_size = ap log2c r.size_field;
        },
      )

  -- `C_resp_read` sends the bytes of the bus from the lane of the address on.
  resp_read_lem :
      (at : ℕ) (bus_data acc : Bytes)
      → at % bridge.busw + size ≤ buff_size
      → (g : Frame) × (effects (resp_read bridge at bus_data acc true) ≡ sent qemu_resp g ∷ [])
        × (g.size ≡ AccData.size)
        × (load size AccData.data_offset g.bytes ≡ load size (at % bridge.busw) bus_data)
  unfolding resp_read
  resp_read_lem at bus_data acc room =
      let some_bus : (bridge.busw == 0) ≡ false = ground arith in
      let same : at % bridge.busw % 2 ^ 32 ≡ at % bridge.busw = omega (arith, mod-lt at wide) in
      let inside : leb (at % bridge.busw) buff_size ≡ true = ground arith in
      (
        record {
          size = AccData.size;
          bytes =
              copy acc AccData.data_offset bus_data (at % bridge.busw)
                (buff_size - at % bridge.busw);
        },
        rw (some_bus, same, inside) refl,
        refl,
        load_moved size 21 (at % bridge.busw) _ bus_data (λ i h.
            copy_inside acc 21 bus_data (at % bridge.busw) (buff_size - at % bridge.busw) i
              (omega arith)),
      )

  -- A read of the guest gets the HDL's bytes: on a bus of 1 to 2048 bytes, for the request that
  -- `mmio_read` sends of 1, 2, 4 or 8 bytes, `C_poll` announces a read at the address plus the
  -- offset of the BAR, with the burst of its size. When the HDL then calls `C_resp_read` with that
  -- address and the bytes of the bus, one frame is sent, and with that frame as its answer
  -- `mmio_read` returns the bytes from the lane of the address on, little-endian. BAR number and
  -- address are in the ranges of their fields.
  pub mmio_read-resp_read :
      (counter : ℕ) (s : Signals) (bus_data acc : Bytes)
      → addr < 2 ^ 64
      → IsAccessSize size
      → (t : Signals) × (g : Frame) × (result (
            poll bridge (qemu_ready (some (mmio_read num counter addr size (λ f. none)).request)) s)
          ≡ returns t)
        × Announces bridge num addr size m_rd t
        × (effects (resp_read bridge t.v_addr bus_data acc true) ≡ sent qemu_resp g ∷ [])
        × ((mmio_read num counter addr size (λ f. some g)).value
            ≡ load size (lane bridge num addr) bus_data)
  unfolding mmio_read read_value
  mmio_read-resp_read counter s bus_data acc word access =
      let at = target bridge num addr in
      let small : size ≤ 8 = ground arith in
      let r = (mmio_read-IsRequest num counter addr size bar word (omega arith) (λ f. none)).0 in
      let (t, run, seen) = poll-read (mmio_read num counter addr size (λ f. none)).request s r in
      let (g, out, whole, same) = resp_read_lem at bus_data acc (omega (arith, mod-lt at wide)) in
      let long : ltb g.size AccData.size ≡ false = rw whole refl in
      (
        t,
        g,
        ap result run,
        seen,
        rw seen.v_addr out,
        rw long (data_of_size-load size g.bytes access ∙ same),
      )

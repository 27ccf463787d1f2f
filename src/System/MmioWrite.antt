-- ===== src/System/MmioWrite.antt =====
-- A write of the guest to a BAR, from `mmio_write_bar` to the signals of `C_poll`.
use qemu_hdl_sim.Base.{
  ℕ, ◌+◌, ◌-◌, ◌/◌, ◌%◌, ◌^◌, ◌≤◌, ◌<◌, ◌≡◌, refl, ◌∙◌, ap, arith, true, false, some, Bytes, within,
  store, copy, Frame, ltb, leb, ◌==◌, if◌then◌else◌, ret, result, returns,
}
use native.Mathlib.Nat.{mod-lt}
use qemu_hdl_sim.Base.Memory.Laws.{copy_inside}
use qemu_hdl_sim.Protocol.{QemuOp, m_wr, op_code, write, read, buff_size}
use qemu_hdl_sim.Protocol.AccData
use qemu_hdl_sim.Protocol.AccConf
use qemu_hdl_sim.Device.Mmio.{mmio_write}
use qemu_hdl_sim.Device.Mmio.Laws.{IsRequest, mmio_write-IsRequest}
use qemu_hdl_sim.Pcie.Setup.{Bridge}
use qemu_hdl_sim.Pcie.Log2c.{log2c}
use qemu_hdl_sim.Pcie.Poll.{
  Signals, qemu_ready, axi_len, strobe, bus_address, align_offset, take_request, poll,
}
use qemu_hdl_sim.Pcie.Poll.Strobe.{bit, strobe-bit}

-- The byte `i` of the value, in the request.
value_byte :
    (num counter addr val size i : ℕ)
    → i < 8
    → AccData.data_at (mmio_write num counter addr val size (λ f. some f)).request.bytes i
      ≡ val / 256 ^ i % 256
unfolding mmio_write store
value_byte num counter addr val size i h =
    let e : 21 + i - 21 ≡ i = omega arith in ground (arith, ap (λ (t : ℕ). val / 256 ^ t % 256) e)

module _ (bridge : Bridge) (num addr : ℕ) where
  -- The address on the bus, and the lane of its first byte.
  abbrev pub target : ℕ
  target = (addr + AccConf.bar_offset num bridge.conf) % 2 ^ 64

  abbrev pub lane : ℕ
  lane = target % bridge.busw

-- What `C_poll` tells the HDL of an access of `size` bytes.
pub record Announces (bridge : Bridge) (num addr size : ℕ) (op : QemuOp) (t : Signals)
    : Type 0 where
  pub req_type : t.req_type ≡ op
  pub v_addr : t.v_addr ≡ target bridge num addr
  pub v_len : t.v_len ≡ axi_len bridge.busw size
  pub v_size : t.v_size ≡ log2c size

-- What `C_poll` finds in a request: the address on the bus, and the lane.
pub announced :
    (bridge : Bridge) (num addr size : ℕ) {id op : ℕ} (f : Frame)
    → 0 < bridge.busw
    → bridge.busw ≤ 2 ^ 32
    → IsRequest num id addr op size f
    → (bus_address bridge f.bytes ≡ target bridge num addr)
      × (align_offset bridge (bus_address bridge f.bytes) ≡ lane bridge num addr)
unfolding bus_address align_offset
announced bridge num addr size f wide narrow r =
    let small : lane bridge num addr % 2 ^ 32 ≡ lane bridge num addr =
      omega (arith, mod-lt (target bridge num addr) wide) in
    rw (r.bar_field, r.address_field) (refl, small)

module _ (bridge : Bridge) (num addr size : ℕ) (wide : 0 < bridge.busw) (narrow : bridge.busw ≤ 64)
    (bar : num < 6) where
  abbrev to : ℕ
  to = target bridge num addr

  abbrev at : ℕ
  at = lane bridge num addr

  -- `C_poll` on a request of a write.
  poll-write :
      {id : ℕ} (f : Frame) (s : Signals) (strb : ℕ)
      → strobe size at ≡ ret strb
      → IsRequest num id addr (op_code write) size f
      → (t : Signals) × (poll bridge (qemu_ready (some f)) s ≡ ret t)
        × Announces bridge num addr size m_wr t
        × (t.v_strb ≡ strb)
        × (t.v_data ≡ copy s.v_data at f.bytes AccData.data_offset (buff_size - at))
  unfolding poll take_request
  poll-write f s strb defined r =
      let whole : leb AccData.size f.size ≡ true = rw r.whole refl in
      let known : ltb (AccData.bar_num f.bytes) 6 ≡ true = rw r.bar_field (ground arith) in
      let some_bus : (bridge.busw == 0) ≡ false = ground arith in
      let is_write : (AccData.op f.bytes == op_code read) ≡ false = rw r.op_field refl in
      let seen = announced bridge num addr size f wide (omega arith) r in
      let same : strobe (AccData.data_size f.bytes)
            (align_offset bridge (bus_address bridge f.bytes))
          ≡ ret strb =
        rw (r.size_field, seen.1) defined in
      (
        record s {
          req_type = m_wr;
          v_addr = bus_address bridge f.bytes;
          v_len = axi_len bridge.busw (AccData.data_size f.bytes);
          v_size = log2c (AccData.data_size f.bytes);
          v_strb = strb;
          v_data =
              copy s.v_data (align_offset bridge (bus_address bridge f.bytes)) f.bytes
                AccData.data_offset (buff_size - align_offset bridge (bus_address bridge f.bytes));
        },
        rw (whole, known, some_bus, is_write, same) refl,
        record {
          req_type = refl;
          v_addr = seen.0;
          v_len = ap (axi_len bridge.busw) r.size_field;
          v_size = ap log2c r.size_field;
        },
        refl,
        rw seen.1 refl,
      )

  -- A write of the guest, as `C_poll` shows it to the HDL: on a bus of 1 to 64 bytes, for the request that
  -- `mmio_write` sends of at most 8 bytes, `C_poll` announces a write at the address plus the
  -- offset of the BAR, with the burst of its size. Of the 64 lanes that the strobe has a bit for,
  -- it has the bit of a lane set exactly if the access has a byte on it, and each byte of the value
  -- stands in the data on its lane, lowest first. An access that reaches past the end of the bus
  -- word is announced in the same way. BAR number and address are in the ranges of their fields.
  pub poll-mmio_write :
      (counter val : ℕ) (s : Signals)
      → addr < 2 ^ 64
      → size ≤ 8
      → (t : Signals) × (result (
            poll bridge
              (qemu_ready (some (mmio_write num counter addr val size (λ f. some f)).request))
              s)
          ≡ returns t)
        × Announces bridge num addr size m_wr t
        × ((j : ℕ) → j < 64 → bit t.v_strb j ≡ (if within at size j then 1 else 0))
        × ((i : ℕ) → i < size → t.v_data (at + i) ≡ val / 256 ^ i % 256)
  poll-mmio_write counter val s word small =
      let f = (mmio_write num counter addr val size (λ f. some f)).request in
      let r =
        (mmio_write-IsRequest num counter addr size bar word (omega arith) val (λ f. some f)).0 in
      let (strb, defined, lanes) =
        strobe-bit size at (omega arith) (omega (arith, mod-lt to wide)) in
      let (t, run, seen, same, data_) = poll-write f s strb defined r in
      (
        t,
        ap result run,
        seen,
        λ j h. ap (λ (n : ℕ). bit n j) same ∙ lanes j h,
        λ i h.
            ap (λ (b : Bytes). b (at + i)) data_
            ∙ copy_inside s.v_data at f.bytes 21 (buff_size - at) i (omega (arith, mod-lt to wide))
            ∙ value_byte num counter addr val size i (omega arith),
      )

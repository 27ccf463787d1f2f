-- ===== src/Pcie/Poll/Geometry.antt =====
-- The bursts that `C_poll` announces.
use native.Mathlib.Nat.{div-add-mod, mod-lt, one-le-pow, le_refl}
use qemu_hdl_sim.Base.{
  zero, suc, ℕ, ◌+◌, ◌*◌, ◌/◌, ◌%◌, ◌^◌, ◌≤◌, ◌<◌, ◌≡◌, ◌↔◌, ◌⊎◌, inl, inr, dec_lt, arith,
}
use qemu_hdl_sim.Pcie.Log2c.{log2c, log2c_lem, pow-cancel, pow_small}
use qemu_hdl_sim.Pcie.Poll.{axi_len}
use qemu_hdl_sim.Pcie.Request.{transfer_size}

-- As many beats as an access that is aligned to the bus takes in words of the bus.
axi_len_bounds :
    (busw size : ℕ)
    → 0 < busw
    → 0 < size
    → (axi_len busw size * busw < size) × (size ≤ (axi_len busw size + 1) * busw)
unfolding axi_len
axi_len_bounds busw size pos some_ = grind (arith, div-add-mod size busw, mod-lt size pos)

log2c_power : (k : ℕ) → k < 64 → log2c (2 ^ k) ≡ k
log2c_power k h =
    let word : 2 ^ k < 2 ^ 64 = pow_small h in
    let r = log2c_lem (2 ^ k) word (one-le-pow k 2 (omega arith)) in
    omega (arith, pow-cancel (log2c (2 ^ k)) k r.0, r.1 k (le_refl _))

-- An access of a power of two of bytes that fits the bus is announced as one beat of exactly its
-- size, in the encoding that `C_req_read` and `C_req_write` take back. The exponent is below 64.
pub transfer_size-axi_len :
    (busw k : ℕ)
    → k < 64
    → 2 ^ k ≤ busw
    → (axi_len busw (2 ^ k) ≡ 0) × (transfer_size (log2c (2 ^ k)) (axi_len busw (2 ^ k)) ≡ 2 ^ k)
unfolding axi_len
transfer_size-axi_len busw k h fits =
    let one : axi_len busw (2 ^ k) ≡ 0 = ground arith in
    (one, rw (one, log2c_power k h) (omega arith))

-- An access that is wider than the bus is announced with beats wider than the bus, which AXI
-- forbids, and with at least twice as many bytes as it has. The bus has at least 1 byte, and the
-- size fits 64 bits.
pub axi_len_wide :
    (busw size : ℕ)
    → 0 < busw
    → size < 2 ^ 64
    → busw < size
    → (busw < 2 ^ log2c size) × (2 * size ≤ transfer_size (log2c size) (axi_len busw size))
axi_len_wide busw size pos word wide =
    let r = log2c_lem size word (omega arith) in
    let more : 1 ≤ axi_len busw size = grind (arith, axi_len_bounds busw size pos) in
    (omega (arith, r.0), grind (arith, r.0, more))

-- The end of what an AXI burst moves: its beats are aligned to their size, so that the first one
-- ends at the next multiple of it behind the address.
abbrev pub burst_end : ℕ → ℕ → ℕ → ℕ
burst_end busw addr size = (addr / 2 ^ log2c size + axi_len busw size + 1) * 2 ^ log2c size

-- Two beats or more reach past any access of at most one beat.
two_beats :
    (addr size beat more : ℕ)
    → addr % beat < beat
    → size ≤ beat
    → 1 ≤ more
    → addr + size ≤ (addr / beat + more + 1) * beat
two_beats addr size beat zero inside long some_ = absurd (omega arith)
two_beats addr size beat (suc more) inside long some_ =
    let split : (addr / beat + suc more + 1) * beat
        ≡ beat * (addr / beat) + more * beat + 2 * beat =
      grind arith in
    omega (arith, split, div-add-mod addr beat)

-- For an access of 1 byte or more, of a size that fits 64 bits, the burst that `C_poll` announces
-- on a bus of 1 byte or more reaches to the end of the access exactly if the access is wider than
-- the bus or does not cross a multiple of the size of a beat.
pub burst_end_iff :
    (busw addr size : ℕ)
    → 0 < busw
    → 0 < size
    → size < 2 ^ 64
    → (addr + size ≤ burst_end busw addr size)
      ↔ ((busw < size) ⊎ (addr % 2 ^ log2c size + size ≤ 2 ^ log2c size))
burst_end_iff busw addr size pos some_ word =
    let beat = 2 ^ log2c size in
    let long : size ≤ beat = (log2c_lem size word some_).0 in
    let parts = div-add-mod addr beat in
    let inside : addr % beat < beat = mod-lt addr (omega arith) in
    elim (dec_lt busw size) [
      | yes wide ↦
          let more : 1 ≤ axi_len busw size = grind (arith, axi_len_bounds busw size pos) in
          (λ e. inl wide, λ e. two_beats addr size beat (axi_len busw size) inside long more)
      | no fits ↦
          let one : axi_len busw size ≡ 0 = unfold axi_len in ground arith in
          (
            λ e. inr (let e' = rw one at e in grind (arith, parts)),
            λ e.
                rw one (elim e [
                  | inl wide ↦ absurd (fits wide)
                  | inr near ↦ grind (arith, parts, near)
                ]),
          )
    ]

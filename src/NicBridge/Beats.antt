-- ===== src/NicBridge/Beats.antt =====
-- The beats that `C_nic_poll` announces for a packet.
use native.Mathlib.Nat.{div-add-mod, mod-lt, div-le_self}
use qemu_hdl_sim.Base.{
  ℕ, ◌+◌, ◌-◌, ◌*◌, ◌/◌, ◌%◌, ◌^◌, ◌≤◌, ◌<◌, ◌≡◌, refl, ◌∙◌, arith, true, ltb, ◌==◌, Bool-cases,
  inl, inr, if◌then◌else◌,
}
use qemu_hdl_sim.Pcie.Poll.Strobe.{bit, bit-ones}
use qemu_hdl_sim.NicBridge.{beats, last_keep}

-- The number of beats, without the wrap of a `uint32_t`.
beats_exact :
    (busw size : ℕ)
    → 0 < busw
    → 0 < size
    → size < 2 ^ 32
    → beats busw size ≡ (if size % busw == 0 then size / busw - 1 else size / busw)
unfolding beats
beats_exact busw size pos some_ word = ground (arith, div-add-mod size busw, div-le_self size busw)

-- The beats cover the packet, and without the last one they would not.
beats_bounds :
    (busw size : ℕ)
    → 0 < busw
    → 0 < size
    → size < 2 ^ 32
    → (beats busw size * busw < size) × (size ≤ (beats busw size + 1) * busw)
beats_bounds busw size pos some_ word =
    rw (beats_exact busw size pos some_ word)
      (grind (arith, div-add-mod size busw, mod-lt size pos))

-- On a bus of up to 64 bytes, the beats that `C_nic_poll` announces for a packet that is not empty
-- are as few as cover it, and `vkeep` has the bit of a lane of the last beat set exactly if that
-- lane still holds a byte of the packet. The bus has at least 1 byte, and the size of the packet
-- fits 32 bits.
pub last_keep-bit :
    (busw size j : ℕ)
    → 0 < busw
    → busw ≤ 64
    → 0 < size
    → size < 2 ^ 32
    → j < busw
    → (beats busw size * busw < size)
      × (size ≤ (beats busw size + 1) * busw)
      × (bit (last_keep busw size) j ≡ (if ltb (beats busw size * busw + j) size then 1 else 0))
unfolding last_keep
last_keep-bit busw size j pos narrow some_ word lane =
    let (low, high) = beats_bounds busw size pos some_ word in
    (low, high, rw (beats_exact busw size pos some_ word) lanes)
  where
    q : ℕ
    q = size / busw

    lanes :
        bit (last_keep busw size) j
        ≡ (if ltb ((if size % busw == 0 then q - 1 else q) * busw + j) size then 1 else 0)
    lanes = elim (Bool-cases (size % busw == 0)) [
      | inl full ↦
          let inside : ltb ((q - 1) * busw + j) size ≡ true =
            grind (arith, div-add-mod size busw) in
          let bus : ltb j 64 ≡ true = ground arith in
          rw (full, inside) (bit-ones 64 j ∙ rw bus refl)
      | inr part ↦
          let same : ltb (q * busw + j) size ≡ ltb j (size % busw) =
            grind (arith, div-add-mod size busw) in
          rw (part, same) (bit-ones (size % busw) j)
    ]

-- ===== src/Pcie/Poll/Strobe.antt =====
-- The byte strobes of a write, bit by bit.
use native.Mathlib.Nat.{two-pow-succ, pow-succ', one-le-pow, div-div-eq-div-mul}
use native.Mathlib.Nat.{mod-eq_of_lt, div-add-mod, mod-lt, mul-add-mod_self_left}
use qemu_hdl_sim.Base.{
  ℕ, zero, suc, ◌+◌, ◌-◌, ◌*◌, ◌/◌, ◌%◌, ◌^◌, ◌<◌, ◌≡◌, refl, sym, ap, ◌∙◌, arith, true, false, ltb,
  leb, if◌then◌else◌, within, ret,
}
use qemu_hdl_sim.Pcie.Poll.{strobe}

-- Bit `j` of a number.
abbrev pub bit : ℕ → ℕ → ℕ
bit n j = n / 2 ^ j % 2

bit-suc : (n j : ℕ) → bit n (suc j) ≡ bit (n / 2) j
bit-suc n j =
    ap (λ (t : ℕ). t % 2)
      (ap (λ (t : ℕ). n / t) (pow-succ' 2 j) ∙ sym (div-div-eq-div-mul n 2 (2 ^ j)))

bit-zero : (j : ℕ) → bit 0 j ≡ 0
bit-zero zero = refl
bit-zero (suc j) = bit-suc 0 j ∙ bit-zero j

-- `size` ones.
pub bit-ones : (size j : ℕ) → bit (2 ^ size - 1) j ≡ (if ltb j size then 1 else 0)
bit-ones zero j = bit-zero j ∙ ground arith
bit-ones (suc size) zero = ground (arith, two-pow-succ size, one-le-pow size 2)
bit-ones (suc size) (suc j) =
    let half : (2 ^ suc size - 1) / 2 ≡ 2 ^ size - 1 =
      omega (arith, two-pow-succ size, one-le-pow size 2) in
    bit-suc (2 ^ suc size - 1) j ∙ ap (λ (t : ℕ). bit t j) half ∙ bit-ones size j ∙ ground arith

-- A shift to the left.
bit-shift : (align n j : ℕ) → bit (n * 2 ^ align) j ≡ (if leb align j then bit n (j - align) else 0)
bit-shift zero n j =
    let same : n * 2 ^ 0 ≡ n = omega arith in
    let back : j - 0 ≡ j = omega arith in
    let low : leb 0 j ≡ true = ground arith in rw (same, low, back)
bit-shift (suc align) n zero =
    let even : n * 2 ^ suc align ≡ 2 * (n * 2 ^ align) =
      omega (arith, ap (λ (t : ℕ). n * t) (pow-succ' 2 align)) in
    let high : leb (suc align) 0 ≡ false = ground arith in rw (even, high) (omega arith)
bit-shift (suc align) n (suc j) =
    let half : n * 2 ^ suc align / 2 ≡ n * 2 ^ align =
      omega (arith, ap (λ (t : ℕ). n * t) (pow-succ' 2 align)) in
    let back : suc j - suc align ≡ j - align = omega arith in
    let same : leb (suc align) (suc j) ≡ leb align j = ground arith in
    rw (same, back)
      (bit-suc (n * 2 ^ suc align) j ∙ ap (λ (t : ℕ). bit t j) half ∙ bit-shift align n j)

-- The lowest bit and the others make up the remainder.
mod-two_mul : (v m : ℕ) → 0 < m → v % 2 + 2 * (v / 2 % m) ≡ v % (2 * m)
mod-two_mul v m pos = sym (
    ap (λ (t : ℕ). t % (2 * m)) parts
    ∙ mul-add-mod_self_left (2 * m) (v / 2 / m) rest
    ∙ mod-eq_of_lt (omega (arith, mod-lt (v / 2) pos)))
  where
    rest : ℕ
    rest = v % 2 + 2 * (v / 2 % m)

    parts : v ≡ 2 * m * (v / 2 / m) + rest
    parts = omega (arith, div-add-mod (v / 2) m)

-- A cut to `k` bits keeps those bits.
bit-cut : (k n j : ℕ) → j < k → bit (n % 2 ^ k) j ≡ bit n j
bit-cut zero n j h = absurd (omega arith)
bit-cut (suc k) n zero h =
    rw (pow-succ' 2 k) (omega (arith, mod-two_mul n (2 ^ k) (one-le-pow k 2 (omega arith))))
bit-cut (suc k) n (suc j) h =
    let half : n % 2 ^ suc k / 2 ≡ n / 2 % 2 ^ k =
      rw (pow-succ' 2 k) (omega (arith, mod-two_mul n (2 ^ k) (one-le-pow k 2 (omega arith)))) in
    bit-suc (n % 2 ^ suc k) j
    ∙ ap (λ (t : ℕ). bit t j) half
    ∙ bit-cut k (n / 2) j (omega arith)
    ∙ sym (bit-suc n j)

-- For an access of fewer than 31 bytes from a lane below 64 on, the strobe is defined, and of the
-- 64 lanes that it has a bit for, it has the bit of a lane set exactly if the access has a byte on
-- that lane.
pub strobe-bit :
    (size align : ℕ)
    → size < 31
    → align < 64
    → (strb : ℕ) × (strobe size align ≡ ret strb)
      × ((j : ℕ) → j < 64 → bit strb j ≡ (if within align size j then 1 else 0))
unfolding strobe
strobe-bit size align few low =
    let small : ltb size 31 ≡ true = ground arith in
    let inside : ltb align 64 ≡ true = ground arith in
    (
      (2 ^ size - 1) * 2 ^ align % 2 ^ 64,
      rw (small, inside) refl,
      λ j lane.
          bit-cut 64 ((2 ^ size - 1) * 2 ^ align) j lane
          ∙ bit-shift align (2 ^ size - 1) j
          ∙ ground (arith, bit-ones size (j - align)),
    )

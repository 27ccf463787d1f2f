-- ===== src/Pcie/Log2c.antt =====
-- `log2c` of dpi-pcie.c, and that it is the logarithm to the base 2, rounded up.
use Prim.Native.Nat.{bit_and}
use mathlib.Core.Logic.{dite, dif_pos, dif_neg}
use mathlib.Core.WellFounded.{Acc}
use native.Mathlib.Bridge.{le_prop}
use native.Mathlib.Decide.{dec_le}
use native.Mathlib.Nat.{two-pow-succ, one-le-pow, pow-le-pow_right}
use qemu_hdl_sim.Base.{
  ℕ, suc, ◌+◌, ◌-◌, ◌/◌, ◌%◌, ◌^◌, ◌≤◌, ◌<◌, ◌≡◌, ◌∙◌, ◌⊎◌, inl, inr, arith, ◌==◌, if◌then◌else◌,
  dec_lt,
}
use qemu_hdl_sim.Base.Order.{lt_wf}
use qemu_hdl_sim.Base.Bits.{bit_and-pred}

half-lt : (x : ℕ) → 0 < x / 2 → x / 2 < x
half-lt x h = omega arith

-- `while (x >>= 1) log++;`
shifts : (x log : ℕ) → Acc ◌<◌ x → ℕ
shifts x log (Acc.intro _ smaller) =
    dite (dec_lt 0 (x / 2)) (λ h. shifts (x / 2) (log + 1) (smaller (x / 2) (half-lt x h)))
      (λ _. log)

-- `(x & x - 1) ? 1 : 0` on a `uint64_t`, where `0 - 1` is all ones.
unfoldable pub is_mixed : ℕ → ℕ
is_mixed x = if bit_and x ((x + 2 ^ 64 - 1) % 2 ^ 64) == 0 then 0 else 1

-- `log2c`, whose result is a `uint8_t`.
unfoldable pub log2c : ℕ → ℕ
unfolding shifts half-lt is_mixed lt_wf dec_lt
log2c x = shifts x (is_mixed x) (lt_wf.apply x) % 2 ^ 8

-- The loop adds the logarithm rounded down.
shifts_lem :
    (x log : ℕ) (w : Acc ◌<◌ x)
    → 0 < x
    → (k : ℕ) × (shifts x log w ≡ log + k) × (2 ^ k ≤ x) × (x < 2 ^ suc k)
unfolding shifts
shifts_lem x log (Acc.intro _ smaller) pos = elim (dec_lt 0 (x / 2)) [
  | yes more ↦
      let (k, e, lo, hi) = shifts_lem (x / 2) (log + 1) (smaller (x / 2) (half-lt x more)) more in
      (
        suc k,
        dif_pos (dec_lt 0 (x / 2)) le_prop more _ _ ∙ e ∙ omega arith,
        omega (arith, two-pow-succ k),
        omega (arith, two-pow-succ k, two-pow-succ (suc k)),
      )
  | no one ↦ (0, dif_neg (dec_lt 0 (x / 2)) one _ _ ∙ omega arith, omega arith, omega arith)
]

-- One of the two tests: the number is a power of two, or it is not and counts one more.
is_mixed_lem :
    (k x : ℕ)
    → 2 ^ k ≤ x
    → x < 2 ^ suc k
    → x < 2 ^ 64
    → ((x ≡ 2 ^ k) × (is_mixed x ≡ 0)) ⊎ ((2 ^ k < x) × (is_mixed x ≡ 1))
unfolding is_mixed
is_mixed_lem k x lo hi word =
    let pred : (x + 2 ^ 64 - 1) % 2 ^ 64 ≡ x - 1 = omega (arith, one-le-pow k 2) in
    rw pred (ground (arith, bit_and-pred k x))

-- An exponent below another has at most half the power.
pow-lt : (j k : ℕ) → j < k → 2 ^ j + 2 ^ j ≤ 2 ^ k
pow-lt j k h = rw (← two-pow-succ j) (pow-le-pow_right (omega arith) h)

pub pow-cancel : (j k : ℕ) → 2 ^ k ≤ 2 ^ j → k ≤ j
pow-cancel j k h = elim (dec_le k j) [
  | yes le ↦ le
  | no gt ↦ absurd (omega (arith, pow-lt j k (omega arith), one-le-pow j 2 (omega arith)))
]

pow-cancel_lt : (j k : ℕ) → 2 ^ k < 2 ^ j → k < j
pow-cancel_lt j k h = elim (dec_lt k j) [
  | yes lt ↦ lt
  | no ge ↦
      absurd (omega (arith, pow-le-pow_right {n = 2} (omega arith) {i = j} {j = k} (omega arith)))
]

pub pow_small : {n : ℕ} → n < 64 → 2 ^ n < 2 ^ 64
pow_small {n} h = omega (arith, pow-lt n 64 h, one-le-pow n 2)

-- `log2c x` is the least exponent whose power of two is at least `x`, for every nonzero `uint64_t`.
pub log2c_lem :
    (x : ℕ) → x < 2 ^ 64 → 0 < x → (x ≤ 2 ^ log2c x) × ((j : ℕ) → x ≤ 2 ^ j → log2c x ≤ j)
log2c_lem x word pos =
    let (k, e, lo, hi) = shifts_lem x (is_mixed x) (lt_wf.apply x) pos in
    let small : k < 64 = pow-cancel_lt 64 k (omega arith) in
    elim (is_mixed_lem k x lo hi word) [
      | inl (power, plain) ↦
          let r : log2c x ≡ k = unfold log2c in omega arith in
          rw r (omega arith, λ j h. pow-cancel j k (omega arith))
      | inr (more, mixed) ↦
          let r : log2c x ≡ suc k = unfold log2c in omega arith in
          rw r (omega arith, λ j h. pow-cancel_lt j k (omega arith))
    ]

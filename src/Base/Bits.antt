-- ===== src/Base/Bits.antt =====
-- `&` of a number with its predecessor, from the lowest digit up.
use Prim.Native.Nat.{
  ℕ, zero, suc, ◌+◌, ◌-◌, ◌*◌, ◌/◌, ◌%◌, ◌^◌, ◌≤◌, ◌<◌, min, bit_and, digits, bit_and-bitwise,
}
use mathlib.Core.Path.{◌≡◌, refl, ap, ◌∙◌}
use mathlib.Core.Logic.{◌⊎◌, inl, inr}
use native.Mathlib.Nat.{two-pow-succ, one-le-pow, le_refl}
use native.Mathlib.Decide.{ℕ_discrete}
use native.Mathlib.Omega.{arith}

abbrev and_up_to : ℕ → ℕ → ℕ → ℕ
and_up_to fuel a b = digits (λ y. 0) min fuel a b

-- Fuel beyond the first number changes nothing.
and_up_to_more :
    (fuel less a b : ℕ) → a ≤ less → less ≤ fuel → and_up_to fuel a b ≡ and_up_to less a b
and_up_to_more fuel less zero b p q = start fuel ∙ sym_start less
  where
    start : (n : ℕ) → and_up_to n 0 b ≡ 0
    start zero = refl
    start (suc n) = refl

    sym_start : (n : ℕ) → 0 ≡ and_up_to n 0 b
    sym_start zero = refl
    sym_start (suc n) = refl
and_up_to_more zero less (suc a) b p q = absurd (omega arith)
and_up_to_more (suc fuel) zero (suc a) b p q = absurd (omega arith)
and_up_to_more (suc fuel) (suc less) (suc a) b p q =
    ap (λ (t : ℕ). t * 2 + min (suc a % 2) (b % 2))
      (and_up_to_more fuel less (suc a / 2) (b / 2) (omega arith) (omega arith))

-- The lowest digit of `a & b`, and the others.
bit_and_halves : (a b : ℕ) → bit_and a b ≡ 2 * bit_and (a / 2) (b / 2) + min (a % 2) (b % 2)
bit_and_halves zero b = omega (arith, bit_and-bitwise 0 b, bit_and-bitwise 0 (b / 2))
bit_and_halves (suc a) b = omega (
  arith,
  bit_and-bitwise (suc a) b,
  bit_and-bitwise (suc a / 2) (b / 2),
  and_up_to_more a (suc a / 2) (suc a / 2) (b / 2) (le_refl _) (omega arith),
)

bit_and_self : (k a : ℕ) → a ≤ k → bit_and a a ≡ a
bit_and_self k zero h = refl
bit_and_self zero (suc a) h = absurd (omega arith)
bit_and_self (suc k) (suc a) h =
    omega (arith, bit_and_halves (suc a) (suc a), bit_and_self k (suc a / 2) (omega arith))

bit_and_even : (y : ℕ) → 0 < y → bit_and (2 * y) (2 * y - 1) ≡ 2 * bit_and y (y - 1)
bit_and_even y pos =
    bit_and_halves (2 * y) (2 * y - 1)
    ∙ omega (arith, ap (bit_and (2 * y / 2)) low, ap (λ (t : ℕ). bit_and t (y - 1)) high)
  where
    low : (2 * y - 1) / 2 ≡ y - 1
    low = omega arith

    high : 2 * y / 2 ≡ y
    high = omega arith

bit_and_odd : (y : ℕ) → bit_and (2 * y + 1) (2 * y) ≡ 2 * y
bit_and_odd y =
    bit_and_halves (2 * y + 1) (2 * y)
    ∙ omega (
      arith,
      ap (bit_and ((2 * y + 1) / 2)) low,
      ap (λ (t : ℕ). bit_and t y) high,
      bit_and_self y y (le_refl y),
    )
  where
    low : 2 * y / 2 ≡ y
    low = omega arith

    high : (2 * y + 1) / 2 ≡ y
    high = omega arith

-- A number and its predecessor share no bit exactly if the number is a power of two.
pub bit_and-pred :
    (k x : ℕ)
    → 2 ^ k ≤ x
    → x < 2 ^ suc k
    → ((x ≡ 2 ^ k) × (bit_and x (x - 1) ≡ 0)) ⊎ ((2 ^ k < x) × (0 < bit_and x (x - 1)))
bit_and-pred zero x lo hi = let e : x ≡ 1 = omega arith in rw e (inl (refl, refl))
bit_and-pred (suc k) x lo hi =
    let e : x ≡ 2 * (x / 2) + x % 2 = omega arith in
    elim (ℕ_discrete (x % 2) 0) [
      | yes even ↦
          let twice : x ≡ 2 * (x / 2) = omega arith in
          let half =
            bit_and-pred k (x / 2) (omega (arith, two-pow-succ k))
              (omega (arith, two-pow-succ k, two-pow-succ (suc k))) in
          let shared : bit_and x (x - 1) ≡ 2 * bit_and (x / 2) (x / 2 - 1) =
            ap (λ (t : ℕ). bit_and t (t - 1)) twice
            ∙ bit_and_even (x / 2) (omega (arith, one-le-pow k 2, two-pow-succ k)) in
          ground (arith, half, shared, two-pow-succ k)
      | no odd ↦
          let next : x ≡ 2 * (x / 2) + 1 = omega arith in
          let pred : x - 1 ≡ 2 * (x / 2) = omega arith in
          let shared : bit_and x (x - 1) ≡ 2 * (x / 2) =
            ap (bit_and x) pred
            ∙ ap (λ (t : ℕ). bit_and t (2 * (x / 2))) next
            ∙ bit_and_odd (x / 2) in
          inr (omega (arith, two-pow-succ k), omega (arith, two-pow-succ k, one-le-pow k 2))
    ]

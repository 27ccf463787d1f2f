-- ===== src/Base/Memory/Laws.antt =====
-- What loads see of stores and copies.
use Prim.Native.Nat.{ℕ, zero, suc, ◌+◌, ◌-◌, ◌*◌, ◌/◌, ◌%◌, ◌^◌, ◌≤◌, ◌<◌}
use mathlib.Core.Path.{◌≡◌, refl, sym, ap, ◌∙◌}
use mathlib.Core.Logic.{◌⊎◌}
use native.Mathlib.Nat.{
  div-div-eq-div-mul, pow-succ', one-le-pow, mul-add-mod_self_left, mod-eq_of_lt, mod-lt,
  div-add-mod, add-zero,
}
use native.Mathlib.Omega.{arith}
use qemu_hdl_sim.Base.Memory.{Bytes, load, store, copy}

-- A load depends on its own bytes only.
pub load_ext :
    (w at : ℕ) (b c : Bytes)
    → ((i : ℕ) → at ≤ i → i < at + w → b i ≡ c i)
    → load w at b ≡ load w at c
unfolding load
load_ext zero at b c h = refl
load_ext (suc w) at b c h = omega (
  arith,
  h at (omega arith) (omega arith),
  load_ext w (suc at) b c (λ i p q. h i (omega arith) (omega arith)),
)

-- The lowest digit and the others make up the remainder.
mod-mul : (v m : ℕ) → 0 < m → v % 256 + 256 * (v / 256 % m) ≡ v % (256 * m)
mod-mul v m pos = sym (
    ap (λ (t : ℕ). t % (256 * m)) parts
    ∙ mul-add-mod_self_left (256 * m) (v / 256 / m) rest
    ∙ mod-eq_of_lt (omega (arith, mod-lt (v / 256) pos)))
  where
    rest : ℕ
    rest = v % 256 + 256 * (v / 256 % m)

    parts : v ≡ 256 * m * (v / 256 / m) + rest
    parts = omega (arith, div-add-mod (v / 256) m)

load_digits :
    (w at v : ℕ) (b : Bytes)
    → ((i : ℕ) → i < w → b (at + i) ≡ v / 256 ^ i % 256)
    → load w at b ≡ v % 256 ^ w
unfolding load
load_digits zero at v b h = omega arith
load_digits (suc w) at v b h = rw (pow-succ' 256 w) (
    omega (
      arith,
      lowest,
      load_digits w (suc at) (v / 256) b others,
      mod-mul v (256 ^ w) (one-le-pow w 256 (omega arith)),
    ))
  where
    lowest : b at ≡ v % 256
    lowest = ap b (sym (add-zero at)) ∙ h 0 (omega arith) ∙ omega arith

    others : (i : ℕ) → i < w → b (suc at + i) ≡ v / 256 / 256 ^ i % 256
    others i p =
        let step : suc at + i ≡ at + suc i = omega arith in
        let shift : v / 256 ^ suc i ≡ v / 256 / 256 ^ i =
          rw (pow-succ' 256 i) (sym (div-div-eq-div-mul v 256 (256 ^ i))) in
        ap b step ∙ h (suc i) (omega arith) ∙ ap (λ (t : ℕ). t % 256) shift

-- A load gives back what was stored, cut to its width.
pub load-store_self : (w at v : ℕ) (b : Bytes) → load w at (store w at v b) ≡ v % 256 ^ w
unfolding store
load-store_self w at v b = load_digits w at v _ λ i h.
    let e : at + i - at ≡ i = omega arith in ground (arith, ap (λ (t : ℕ). v / 256 ^ t % 256) e)

-- A store or copy elsewhere changes nothing.
pub load-store_apart :
    (w at w' at' v : ℕ) (b : Bytes)
    → (at + w ≤ at') ⊎ (at' + w' ≤ at)
    → load w at (store w' at' v b) ≡ load w at b
unfolding store
load-store_apart w at w' at' v b h = load_ext w at _ b (λ i p q. ground arith)

pub load-copy_apart :
    (w at : ℕ) (target : Bytes) (to : ℕ) (source : Bytes) (from n : ℕ)
    → (at + w ≤ to) ⊎ (to + n ≤ at)
    → load w at (copy target to source from n) ≡ load w at target
unfolding copy
load-copy_apart w at target to source from n h = load_ext w at _ target (λ i p q. ground arith)

-- A copied byte is the source's.
pub copy_inside :
    (target : Bytes) (to : ℕ) (source : Bytes) (from n i : ℕ)
    → i < n
    → copy target to source from n (to + i) ≡ source (from + i)
unfolding copy
copy_inside target to source from n i h =
    let e : to + i - to ≡ i = omega arith in ground (arith, ap (λ (t : ℕ). source (from + t)) e)

pub copy_outside :
    (target : Bytes) (to : ℕ) (source : Bytes) (from n i : ℕ)
    → (i < to) ⊎ (to + n ≤ i)
    → copy target to source from n i ≡ target i
unfolding copy
copy_outside target to source from n i h = ground arith

pub store_outside :
    (w at v : ℕ) (b : Bytes) (i : ℕ) → (i < at) ⊎ (at + w ≤ i) → store w at v b i ≡ b i
unfolding store
store_outside w at v b i h = ground arith

-- ===== src/Device/Lifecycle/Bars.antt =====
-- The BARs that the device registers.
use qemu_hdl_sim.Base.{
  ℕ, zero, suc, ◌+◌, ◌<◌, ◌≡◌, refl, arith, true, false, List, [], ◌∷◌, Bytes, within, ◌==◌,
  if◌then◌else◌, inl, inr, ap, sym, ◌∙◌, effects, Bool-cases,
}
use qemu_hdl_sim.Protocol.AccConf
use qemu_hdl_sim.Device.Lifecycle.{Effect, bar_registered, bar_attr, register_bars}

-- The attributes and sizes with which BAR `n` is registered.
abbrev pub of_bar : ℕ → List Effect → List (ℕ × ℕ)
of_bar n [] = []
of_bar n (bar_registered i attr size ∷ es) =
    let rest = of_bar n es in if i == n then (attr, size) ∷ rest else rest
of_bar n (_ ∷ es) = of_bar n es

-- The attributes that PCI gives a memory BAR: bit 2 for 64 bits, bit 3 for prefetchable.
abbrev pub memory_attributes : Bytes → ℕ
memory_attributes conf =
    (if AccConf.is_64 conf == 0 then 0 else 4) + (if AccConf.prefetch conf == 0 then 0 else 8)

bar_attr-memory : (conf : Bytes) → bar_attr conf ≡ memory_attributes conf
unfolding bar_attr
bar_attr-memory conf = elim (Bool-cases (AccConf.is_64 conf == 0)) [
  | inl narrow ↦ elim (Bool-cases (AccConf.prefetch conf == 0)) [
    | inl plain ↦ rw (narrow, plain) refl
    | inr ahead ↦ rw (narrow, ahead) refl
  ]
  | inr wide ↦ elim (Bool-cases (AccConf.prefetch conf == 0)) [
    | inl plain ↦ rw (wide, plain) refl
    | inr ahead ↦ rw (wide, ahead) refl
  ]
]

-- What there is to register of BAR `n`.
abbrev pub expected : Bytes → ℕ → List (ℕ × ℕ)
expected conf n =
    if AccConf.bar_is_valid n conf == 0
    then []
    else (memory_attributes conf, AccConf.bar_size n conf) ∷ []

same_index : (i n : ℕ) → (i == n) ≡ true → i ≡ n
same_index i n h = ground arith

module _ (conf : Bytes) (n : ℕ) where
  -- The first BAR of a range, and a range without its first BAR.
  first_of : (left : ℕ) → within n (suc left) n ≡ true
  first_of left = ground arith

  not_after : (left : ℕ) → within (n + 1) left n ≡ false
  not_after left = ground arith

  other_than : (left i : ℕ) → (i == n) ≡ false → within (i + 1) left n ≡ within i (suc left) n
  other_than left i ne = ground arith

  register_bars-of_bar :
      (left i : ℕ)
      → of_bar n (effects (register_bars conf left i))
        ≡ (if within i left n then expected conf n else [])
  unfolding register_bars
  register_bars-of_bar zero i =
      let none_left : within i 0 n ≡ false = ground arith in rw none_left refl
  register_bars-of_bar (suc left) i =
      let ih = register_bars-of_bar left (i + 1) in
      elim (Bool-cases (i == n)) [
        | inl own ↦ elim (Bool-cases (AccConf.bar_is_valid i conf == 0)) [
          | inl absent ↦
              let e = same_index i n own in
              let absent' : (AccConf.bar_is_valid n conf == 0) ≡ true =
                ap (λ (k : ℕ). AccConf.bar_is_valid k conf == 0) (sym e) ∙ absent in
              let none_left : within (i + 1) left n ≡ false = rw e (not_after left) in
              let here : within i (suc left) n ≡ true = rw e (first_of left) in
              rw (absent, ih, none_left, here, absent') refl
          | inr valid ↦
              let e = same_index i n own in
              let valid' : (AccConf.bar_is_valid n conf == 0) ≡ false =
                ap (λ (k : ℕ). AccConf.bar_is_valid k conf == 0) (sym e) ∙ valid in
              let none_left : within (i + 1) left n ≡ false = rw e (not_after left) in
              let here : within i (suc left) n ≡ true = rw e (first_of left) in
              rw (valid, own, ih, none_left, here, valid', bar_attr-memory conf)
                (ap (λ (k : ℕ). (memory_attributes conf, AccConf.bar_size k conf) ∷ []) e)
        ]
        | inr ne ↦ elim (Bool-cases (AccConf.bar_is_valid i conf == 0)) [
          | inl absent ↦ rw (absent, ih, other_than left i ne) refl
          | inr valid ↦ rw (valid, ne, ih, other_than left i ne) refl
        ]
      ]

  -- Of each of the six BARs, the loop of `acc_pcie_realize` registers it exactly if the
  -- configuration has it valid: once, with its own size, and as a memory BAR whose attributes have
  -- bit 2 set exactly if the configuration says 64 bits, and bit 3 exactly if it says prefetch.
  pub register_bars_lem : n < 6 → of_bar n (effects (register_bars conf 6 0)) ≡ expected conf n
  register_bars_lem h =
      let all : within 0 6 n ≡ true = ground arith in register_bars-of_bar 6 0 ∙ rw all refl

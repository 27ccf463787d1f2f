-- ===== src/Pcie/Setup/Fields.antt =====
-- The configuration that `C_setup_pcie_connection` makes of its parameters.
use qemu_hdl_sim.Base.{
  ℕ, zero, suc, ◌+◌, ◌/◌, ◌%◌, ◌^◌, ◌≤◌, ◌<◌, ◌≡◌, ◌≢◌, ◌⊎◌, inl, inr, refl, ◌∙◌, Bool-cases,
  dec_lt, false, ret, stop, undefined, halts, arith, true, some, ℤ, Bytes, zeroes, load, store, ltb,
  ◌==◌, if◌then◌else◌, returns, result,
}
use Prim.Native.String.{String}
use native.Mathlib.Nat.{pow-le-pow_right}
use native.Mathlib.Decide.{ℕ_discrete}
use qemu_hdl_sim.Base.Memory.Laws.{load-store_self}
use qemu_hdl_sim.Protocol.AccConf
use qemu_hdl_sim.Pcie.Log2c.{pow_small}
use qemu_hdl_sim.Pcie.Setup.{
  Parameters, set_bar, set_identity, set_msix, setup_pcie_connection, set_conf, print_bars,
}

-- The arguments are in the ranges of their C types, and the sizes of BARs are exponents below 64.
pub record InRange (p : Parameters) : Type 0 where
  pub vendorid : p.vendorid < 2 ^ 16
  pub deviceid : p.deviceid < 2 ^ 16
  pub bar_size : (i : ℕ) → p.bar_size i < 64
  pub bar_offset : (i : ℕ) → p.bar_offset i < 2 ^ 64
  pub msix_vec_num : p.msix_vec_num < 2 ^ 16
  pub msix_table_bar : p.msix_table_bar < 2 ^ 16
  pub msix_table_offset : p.msix_table_offset < 2 ^ 64
  pub msix_pba_bar : p.msix_pba_bar < 2 ^ 16
  pub msix_pba_offset : p.msix_pba_offset < 2 ^ 64

-- The fields of an ACCConf are the parameters.
pub record IsConfigured (p : Parameters) (b : Bytes) : Type 0 where
  pub bar_is_valid :
      (i : ℕ) → i < 6 → AccConf.bar_is_valid i b ≡ (if p.valid_bars i == 0 then 0 else 1)
  pub bar_size : (i : ℕ) → i < 6 → AccConf.bar_size i b ≡ 2 ^ p.bar_size i
  pub bar_offset : (i : ℕ) → i < 6 → AccConf.bar_offset i b ≡ p.bar_offset i
  pub is_64 : AccConf.is_64 b ≡ p.attributes % 2
  pub prefetch : AccConf.prefetch b ≡ p.attributes / 2 % 2
  pub device_id : AccConf.device_id b ≡ p.deviceid
  pub vendor_id : AccConf.vendor_id b ≡ p.vendorid
  pub msix_vec_num : AccConf.msix_vec_num b ≡ p.msix_vec_num
  pub msix_table_bar : AccConf.msix_table_bar b ≡ p.msix_table_bar
  pub msix_table_offset : AccConf.msix_table_offset b ≡ p.msix_table_offset
  pub msix_pba_bar : AccConf.msix_pba_bar b ≡ p.msix_pba_bar
  pub msix_pba_offset : AccConf.msix_pba_offset b ≡ p.msix_pba_offset

-- The configuration, written out.
configured : Parameters → Bytes → Bytes
unfolding set_bar set_identity set_msix
configured p b = set_msix p (
    set_bar p 5
      (set_bar p 4 (set_bar p 3 (set_bar p 2 (set_bar p 1 (set_bar p 0 (set_identity p b)))))))

word_field : (at v : ℕ) → v < 2 ^ 64 → load 8 at (store 8 at v zeroes) ≡ v
word_field at v h = omega (arith, load-store_self 8 at v zeroes)

half_field : (at v : ℕ) → v < 2 ^ 16 → load 2 at (store 2 at v zeroes) ≡ v
half_field at v h = omega (arith, load-store_self 2 at v zeroes)

module _ (p : Parameters) (b : Bytes) (range : InRange p) where
  valid_field :
      (i : ℕ)
      → i < 6
      → AccConf.bar_is_valid i (configured p b) ≡ (if p.valid_bars i == 0 then 0 else 1)
  unfolding configured load store
  valid_field zero h = ground arith
  valid_field (suc zero) h = ground arith
  valid_field (suc (suc zero)) h = ground arith
  valid_field (suc (suc (suc zero))) h = ground arith
  valid_field (suc (suc (suc (suc zero)))) h = ground arith
  valid_field (suc (suc (suc (suc (suc zero))))) h = ground arith
  valid_field (suc (suc (suc (suc (suc (suc i)))))) h = absurd (omega arith)

  size_field : (i : ℕ) → i < 6 → AccConf.bar_size i (configured p b) ≡ 2 ^ p.bar_size i
  unfolding configured load store
  size_field zero h = word_field 8 (2 ^ p.bar_size 0) (pow_small (range.bar_size 0))
  size_field (suc zero) h = word_field 32 (2 ^ p.bar_size 1) (pow_small (range.bar_size 1))
  size_field (suc (suc zero)) h = word_field 56 (2 ^ p.bar_size 2) (pow_small (range.bar_size 2))
  size_field (suc (suc (suc zero))) h =
      word_field 80 (2 ^ p.bar_size 3) (pow_small (range.bar_size 3))
  size_field (suc (suc (suc (suc zero)))) h =
      word_field 104 (2 ^ p.bar_size 4) (pow_small (range.bar_size 4))
  size_field (suc (suc (suc (suc (suc zero))))) h =
      word_field 128 (2 ^ p.bar_size 5) (pow_small (range.bar_size 5))
  size_field (suc (suc (suc (suc (suc (suc i)))))) h = absurd (omega arith)

  offset_field : (i : ℕ) → i < 6 → AccConf.bar_offset i (configured p b) ≡ p.bar_offset i
  unfolding configured load store
  offset_field zero h = word_field 16 (p.bar_offset 0) (range.bar_offset 0)
  offset_field (suc zero) h = word_field 40 (p.bar_offset 1) (range.bar_offset 1)
  offset_field (suc (suc zero)) h = word_field 64 (p.bar_offset 2) (range.bar_offset 2)
  offset_field (suc (suc (suc zero))) h = word_field 88 (p.bar_offset 3) (range.bar_offset 3)
  offset_field (suc (suc (suc (suc zero)))) h = word_field 112 (p.bar_offset 4) (range.bar_offset 4)
  offset_field (suc (suc (suc (suc (suc zero))))) h =
      word_field 136 (p.bar_offset 5) (range.bar_offset 5)
  offset_field (suc (suc (suc (suc (suc (suc i)))))) h = absurd (omega arith)

  configured-IsConfigured : IsConfigured p (configured p b)
  unfolding configured load store
  configured-IsConfigured = record {
    bar_is_valid = valid_field;
    bar_size = size_field;
    bar_offset = offset_field;
    is_64 = omega (arith, load-store_self 1 144 (p.attributes % 2) zeroes);
    prefetch = omega (arith, load-store_self 1 145 (p.attributes / 2 % 2) zeroes);
    device_id = half_field 146 p.deviceid range.deviceid;
    vendor_id = half_field 148 p.vendorid range.vendorid;
    msix_vec_num = half_field 150 p.msix_vec_num range.msix_vec_num;
    msix_table_bar = half_field 152 p.msix_table_bar range.msix_table_bar;
    msix_table_offset = word_field 160 p.msix_table_offset range.msix_table_offset;
    msix_pba_bar = half_field 168 p.msix_pba_bar range.msix_pba_bar;
    msix_pba_offset = word_field 176 p.msix_pba_offset range.msix_pba_offset;
  }

  small : (i : ℕ) → ltb (p.bar_size i) 64 ≡ true
  small i = let h = range.bar_size i in ground arith

  set_conf-returns : set_conf p b ≡ ret (configured p b)
  unfolding set_conf configured
  set_conf-returns = rw (small 0, small 1, small 2, small 3, small 4, small 5) refl

-- BAR `i` is valid and has 32 bytes or more.
pub record IsWide (p : Parameters) (i : ℕ) : Type 0 where
  pub below : i < 6
  pub valid : p.valid_bars i ≢ 0
  pub wide : 5 ≤ p.bar_size i

module _ (p : Parameters) (conf : Bytes) (made : IsConfigured p conf) where
  -- One round of the loop that prints: BAR `i` is not wide and the loop goes on, or it is.
  print_bar :
      (left i : ℕ)
      → i < 6
      → ((¬ IsWide p i) × (print_bars conf (suc left) i ≡ print_bars conf left (i + 1)))
        ⊎ (IsWide p i × (print_bars conf (suc left) i ≡ stop undefined))
  unfolding print_bars
  print_bar left i h = elim (Bool-cases (p.valid_bars i == 0)) [
    | inl none_ ↦
        let absent : AccConf.bar_is_valid i conf ≡ 0 = made.bar_is_valid i h ∙ rw none_ refl in
        inl (λ w. w.valid (ground arith), rw absent refl)
    | inr some_ ↦
        let there : AccConf.bar_is_valid i conf ≡ 1 = made.bar_is_valid i h ∙ rw some_ refl in
        elim (dec_lt (p.bar_size i) 5) [
          | yes narrow ↦
              let fits : ltb (AccConf.bar_size i conf) 31 ≡ true = rw (made.bar_size i h) (
                ground (
                  arith,
                  pow-le-pow_right {n = 2} (omega arith) {i = p.bar_size i} {j = 4} (omega arith),
                )) in
              inl (λ w. absurd (omega (arith, w.wide)), rw (there, fits) refl)
          | no wide ↦
              let past : ltb (AccConf.bar_size i conf) 31 ≡ false = rw (made.bar_size i h) (
                ground (
                  arith,
                  pow-le-pow_right {n = 2} (omega arith) {i = 5} {j = p.bar_size i} (omega arith),
                )) in
              inr (
                record { below = h; valid = λ e. ground arith; wide = omega arith },
                rw (there, past) refl,
              )
        ]
  ]

  print_bars_lem :
      (left i : ℕ)
      → i + left ≤ 6
      → (((j : ℕ) → i ≤ j → j < i + left → ¬ IsWide p j) × (print_bars conf left i ≡ ret tt))
        ⊎ (((j : ℕ) × IsWide p j) × (print_bars conf left i ≡ stop undefined))
  unfolding print_bars
  print_bars_lem zero i h = inl (λ j low high w. absurd (omega arith), refl)
  print_bars_lem (suc left) i h = elim (print_bar left i (omega arith)) [
    | inr (wide, e) ↦ inr ((i, wide), e)
    | inl (narrow, e) ↦ elim (print_bars_lem left (i + 1) (omega arith)) [
      | inr (wide, e') ↦ inr (wide, e ∙ e')
      | inl (others, e') ↦ inl (
        λ j low high w. elim (ℕ_discrete i j) [
          | yes same ↦ narrow (rw same w)
          | no other ↦ others j (omega arith) (omega arith) w
        ],
        e ∙ e',
      )
    ]
  ]

pub setup_pcie_connection-IsConfigured :
    (p : Parameters) (b : Bytes)
    → InRange p
    → (atoi : String → ℤ) (port_str : String)
    → (conf : Bytes) × (set_conf p b ≡ ret conf)
      × IsConfigured p conf
      × ((((i : ℕ) → ¬ IsWide p i)
            × (result (setup_pcie_connection atoi p b (some port_str) true)
                ≡ returns (record { busw = p.busw; conf = conf })))
          ⊎ (((i : ℕ) × IsWide p i)
              × (result (setup_pcie_connection atoi p b (some port_str) true) ≡ halts undefined)))
unfolding setup_pcie_connection
setup_pcie_connection-IsConfigured p b range atoi port_str =
    let conf = configured p b in
    let made = configured-IsConfigured p b range in
    let set = set_conf-returns p b range in
    (
      conf,
      set,
      made,
      elim (print_bars_lem p conf made 6 0 (omega arith)) [
        | inl (narrow, e) ↦ inl (λ i w. narrow i (omega arith) w.below w, rw (set, e) refl)
        | inr (wide, e) ↦ inr (wide, rw (set, e) refl)
      ],
    )

-- ===== src/Device/Lifecycle/Sockets.antt =====
-- The sockets that the device opens when it is realized, and destroys when it exits.
use qemu_hdl_sim.Base.{
  ℕ, zero, suc, ◌+◌, ◌≡◌, refl, ◌∙◌, arith, Bool, true, false, ◌||◌, List, [], ◌∷◌, ℤ, Bytes, ◌==◌,
  if◌then◌else◌, Exec, ret, stop, emit, lift, perform, ◌>>◌, returns, effects, result, Bool-cases,
  inl, inr,
}
use qemu_hdl_sim.Protocol.AccConf
use qemu_hdl_sim.Protocol.Endpoint.{
  Channel, index, hdl_req, nic_resp, serial_tx, init_req, init_resp, qemu_req, qemu_resp, hdl_resp,
  nic_req, serial_rx,
}
use qemu_hdl_sim.Device.Msix
use qemu_hdl_sim.Device.Msix.{bars_exist}
use qemu_hdl_sim.Device.Msix.Balance.{init_msix_lem}
use qemu_hdl_sim.Device.Msix.Cleanup.{cleanup-effects}
use qemu_hdl_sim.Device.Lifecycle.{
  Effect, serial_ready, opened, destroyed, msix, register_bars, open_sockets, all_made, Answers,
  realize_at, exit,
}

-- How often a sequence of effects opens a channel, and how often it destroys it.
abbrev pub opens : Channel → List Effect → ℕ
opens c [] = 0
opens c (opened d o ∷ es) = (if index c == index d then 1 else 0) + opens c es
opens c (_ ∷ es) = opens c es

abbrev pub destroys : Channel → List Effect → ℕ
destroys c [] = 0
destroys c (destroyed d ∷ es) = (if index c == index d then 1 else 0) + destroys c es
destroys c (_ ∷ es) = destroys c es

-- A computation that has no part in the sockets, and returns.
record IsApart (m : Exec Effect (Unit {0})) : Type 0 where
  ends : result m ≡ returns tt
  opens_then :
      (c : Channel) (k : Exec Effect (Unit {0})) → opens c (effects (m >> k)) ≡ opens c (effects k)
  destroys_then :
      (c : Channel) (k : Exec Effect (Unit {0}))
      → destroys c (effects (m >> k)) ≡ destroys c (effects k)
  result_then : (k : Exec Effect (Unit {0})) → result (m >> k) ≡ result k

register_bars-IsApart : (conf : Bytes) (left i : ℕ) → IsApart (register_bars conf left i)
unfolding register_bars
register_bars-IsApart conf zero i = record {
  ends = refl;
  opens_then = λ c k. refl;
  destroys_then = λ c k. refl;
  result_then = λ k. refl;
}
register_bars-IsApart conf (suc left) i =
    let rest = register_bars-IsApart conf left (i + 1) in
    elim (Bool-cases (AccConf.bar_is_valid i conf == 0)) [
      | inl absent ↦ rw absent rest
      | inr valid ↦ rw valid (record {
        ends = rest.ends;
        opens_then = rest.opens_then;
        destroys_then = rest.destroys_then;
        result_then = rest.result_then;
      })
    ]

lift-IsApart : (m : Exec Msix.Effect (Unit {0})) → result m ≡ returns tt → IsApart (lift msix m)
lift-IsApart (ret tt) h = record {
  ends = refl;
  opens_then = λ c k. refl;
  destroys_then = λ c k. refl;
  result_then = λ k. refl;
}
lift-IsApart (stop s) h = cc
lift-IsApart (emit e m) h =
    let rest = lift-IsApart m h in
    record {
      ends = rest.ends;
      opens_then = rest.opens_then;
      destroys_then = rest.destroys_then;
      result_then = rest.result_then;
    }

-- The two channels of the start-up exchange, and the two of the serial line.
abbrev pub is_start : Channel → Bool
is_start c = index c == index init_req || index c == index init_resp

abbrev pub is_serial : Channel → Bool
is_serial c = index c == index serial_rx || index c == index serial_tx

-- The counts, with `n` for what follows the sockets.
abbrev is : Channel → Channel → ℕ
is d c = if index c == index d then 1 else 0

opens_all :
    (c : Channel) (n : ℕ)
    → n ≡ 0
    → is qemu_req c
        + (is qemu_resp c
            + (is hdl_req c
                + (is hdl_resp c
                    + (is nic_req c + (is nic_resp c + (is serial_rx c + (is serial_tx c + n)))))))
      ≡ (if is_start c then 0 else 1)
opens_all init_req n h = omega (arith, h)
opens_all init_resp n h = omega (arith, h)
opens_all qemu_req n h = omega (arith, h)
opens_all qemu_resp n h = omega (arith, h)
opens_all hdl_req n h = omega (arith, h)
opens_all hdl_resp n h = omega (arith, h)
opens_all nic_req n h = omega (arith, h)
opens_all nic_resp n h = omega (arith, h)
opens_all serial_rx n h = omega (arith, h)
opens_all serial_tx n h = omega (arith, h)

destroys_most :
    (c : Channel)
    → is hdl_req c
        + (is hdl_resp c
            + (is qemu_req c + (is qemu_resp c + (is nic_req c + (is nic_resp c + 0)))))
      ≡ (if is_start c || is_serial c then 0 else 1)
destroys_most init_req = refl
destroys_most init_resp = refl
destroys_most qemu_req = refl
destroys_most qemu_resp = refl
destroys_most hdl_req = refl
destroys_most hdl_resp = refl
destroys_most nic_req = refl
destroys_most nic_resp = refl
destroys_most serial_rx = refl
destroys_most serial_tx = refl

module _ (conf : Bytes) (bars : bars_exist conf ≡ true) where
  cleanup-returns : (present : Bool) → result (Msix.cleanup_msix conf present) ≡ returns tt
  cleanup-returns true = (cleanup-effects conf bars).1
  cleanup-returns false = unfold Msix.cleanup_msix in refl

  -- The device opens every channel once but the two of the start-up exchange, when `acc_pcie_realize`
  -- is given a configuration whose MSI-X BARs exist, every socket and descriptor, and a success of
  -- `msix_init`. `acc_pcie_exit` destroys each of these sockets once, but for the two of the serial
  -- line, which it leaves. Both functions return.
  pub realize_at-exit :
      (port : ℤ) (env : Answers) (present : Bool) (c : Channel)
      → all_made env.made ≡ true
      → env.has_fd hdl_req ≡ true
      → env.has_fd nic_resp ≡ true
      → env.has_fd serial_tx ≡ true
      → env.msix_ok ≡ true
      → (result (realize_at port conf env) ≡ returns tt)
        × (result (exit conf present) ≡ returns tt)
        × (opens c (effects (realize_at port conf env)) ≡ (if is_start c then 0 else 1))
        × (destroys c (effects (exit conf present)) ≡ (if is_start c || is_serial c then 0 else 1))
  unfolding realize_at open_sockets exit
  realize_at-exit port env present c made hdl nic serial ok =
      let apart = register_bars-IsApart conf 6 0 in
      let inited =
        lift-IsApart (Msix.init_msix conf true env.msix_entries)
          (init_msix_lem conf env.msix_entries bars 0).0 in
      let cleaned = lift-IsApart (Msix.cleanup_msix conf present) (cleanup-returns present) in
      rw (made, hdl, nic, serial, ok)
        (
          apart.result_then _ ∙ inited.result_then _,
          cleaned.result_then _,
          apart.opens_then c _ ∙ opens_all c _ (inited.opens_then c (perform serial_ready)),
          cleaned.destroys_then c _ ∙ destroys_most c,
        )

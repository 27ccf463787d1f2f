-- ===== src/Device/Msix/Cleanup.antt =====
-- `acc_cleanup_msix` after `acc_init_msix`.
use mathlib.Core.List.{append-nil}
use native.Mathlib.Nat.{zero-add}
use qemu_hdl_sim.Base.{
  ℕ, ◌≡◌, refl, ap, ◌∙◌, arith, Bool, true, false, List, [], ◌∷◌, ◌++◌, Bytes, perform, effects,
  result, returns, dec_lt,
}
use qemu_hdl_sim.Base.Effects.Laws.{>>=-returns}
use qemu_hdl_sim.Protocol.AccConf
use qemu_hdl_sim.Device.Msix.{
  Effect, uninit_called, unuse_from, unuse_msix_vectors, init_msix, cleanup_msix, bars_exist,
}
use qemu_hdl_sim.Device.Msix.Balance.{
  uses, unuses, one_in, is_present, uses-append, unuses-append, is_present-append,
  unuse_from-counts, init_msix_lem,
}

module _ (conf : Bytes) (bars : bars_exist conf ≡ true) where
  abbrev num : ℕ
  num = AccConf.msix_vec_num conf

  abbrev ended : List Effect
  ended = uninit_called (AccConf.msix_table_bar conf) (AccConf.msix_pba_bar conf) ∷ []

  pub cleanup-effects :
      (effects (cleanup_msix conf true) ≡ effects (unuse_from num 0) ++ ended)
      × (result (cleanup_msix conf true) ≡ returns tt)
  unfolding cleanup_msix unuse_msix_vectors
  cleanup-effects = rw bars (
      >>=-returns (unuse_from num 0)
        (λ _. perform (uninit_called (AccConf.msix_table_bar conf) (AccConf.msix_pba_bar conf))) tt
        (unuse_from-counts num 0 0).2)

  cleanup-counts :
      (p : Bool) (v : ℕ)
      → let ds = effects (cleanup_msix conf true) in
        (uses v ds ≡ 0) × (unuses v ds ≡ one_in 0 num v) × (is_present p ds ≡ false)
  cleanup-counts p v =
      let loop = unuse_from-counts num 0 v in
      let gone = effects (unuse_from num 0) in
      rw cleanup-effects.0 (
        uses-append v gone ended ∙ omega (arith, loop.0),
        unuses-append v gone ended
            ∙ omega (arith, loop.1, ap (λ (j : ℕ). one_in 0 j v) (zero-add num)),
        is_present-append p gone ended,
      )

  absent : effects (cleanup_msix conf false) ≡ []
  unfolding cleanup_msix
  absent = refl

  -- After `acc_init_msix`, where `msix_init` succeeds, and then `acc_cleanup_msix`, which asks
  -- whether the capability is there, each vector has been given up as often as it was used, and the
  -- capability is gone; both when the table had enough vectors and when it had too few. The two
  -- MSI-X BARs of the configuration are among the six.
  pub cleanup_msix_lem :
      (entries v : ℕ)
      → let es = effects (init_msix conf true entries) in
        let ds = effects (cleanup_msix conf (is_present false es)) in
        (uses v (es ++ ds) ≡ unuses v (es ++ ds)) × (is_present false (es ++ ds) ≡ false)
  cleanup_msix_lem entries v = elim (dec_lt entries num) [
    | yes few ↦
        let made = (init_msix_lem conf entries bars v).2 few in rw (made.1, absent, append-nil) made
    | no enough ↦
        let made = (init_msix_lem conf entries bars v).1 (omega arith) in
        let es = effects (init_msix conf true entries) in
        let ds = effects (cleanup_msix conf true) in
        rw made.2 (
          omega (
            arith,
            uses-append v es ds,
            unuses-append v es ds,
            made.0,
            made.1,
            (cleanup-counts true v).0,
            (cleanup-counts true v).1,
          ),
          is_present-append false es ds ∙ (cleanup-counts _ v).2,
        )
  ]

-- ===== src/Device/Msix.antt =====
-- The MSI-X vectors of the device: `acc_use_msix_vectors`, `acc_unuse_msix_vectors`,
-- `acc_init_msix` and `acc_cleanup_msix`. QEMU's own functions are effects, and what they return
-- is an argument: the result of `msix_init`, `msix_entries_nr`, and `msix_present`.
pub mod Balance
pub mod Cleanup
use qemu_hdl_sim.Base.{
  ℕ, zero, suc, ◌+◌, Bool, true, false, List, [], ◌∷◌, Bytes, load, ltb, leb, if◌then◌else◌, Exec,
  ret, stop, emit, exits, undefined, guard, perform, ◌>>=◌, ◌>>◌, ◌&&◌,
}
use qemu_hdl_sim.Protocol.AccConf

-- The calls of QEMU's MSI-X functions. `init_called` and `uninit_called` name the BARs of the
-- table and of the pending bits.
pub data Effect : Type 0 where
  init_called : ℕ → ℕ → ℕ → ℕ → ℕ → Effect
  uninit_called : ℕ → ℕ → Effect
  vector_used : ℕ → Effect
  vector_unused : ℕ → Effect

-- The loop of `acc_unuse_msix_vectors` from vector `i` on, with `left` rounds left.
unfoldable pub unuse_from : ℕ → ℕ → Exec Effect (Unit {0})
unuse_from zero i = ret tt
unuse_from (suc left) i = do perform (vector_unused i); unuse_from left (i + 1)

-- `acc_unuse_msix_vectors`
unfoldable pub unuse_msix_vectors : ℕ → Exec Effect (Unit {0})
unfolding unuse_from
unuse_msix_vectors num = unuse_from num 0

module _ (entries : ℕ) where
  -- The loop of `acc_use_msix_vectors` from vector `i` on, with `left` rounds left. `entries` is
  -- `msix_entries_nr`.
  unfoldable pub use_from : ℕ → ℕ → Exec Effect Bool
  unfolding unuse_msix_vectors
  use_from zero i = ret true
  use_from (suc left) i =
      let rest = use_from left (i + 1) in
      if leb entries i
      then (unuse_msix_vectors i >> ret false)
      else (perform (vector_used i) >> rest)

  -- `acc_use_msix_vectors`
  unfoldable pub use_msix_vectors : ℕ → Exec Effect Bool
  unfolding use_from
  use_msix_vectors num = use_from num 0

-- `&s->bars[n]` for the two BARs of a configuration lies in the array of six.
abbrev pub bars_exist : Bytes → Bool
bars_exist conf = ltb (AccConf.msix_table_bar conf) 6 && ltb (AccConf.msix_pba_bar conf) 6

-- What follows `acc_use_msix_vectors` in `acc_init_msix`.
unfoldable pub uninit_unless : Bytes → Bool → Exec Effect (Unit {0})
uninit_unless conf true = ret tt
uninit_unless conf false =
    perform (uninit_called (AccConf.msix_table_bar conf) (AccConf.msix_pba_bar conf))

-- `acc_init_msix` with the configuration `hdlconf`; `init_ok` is `res >= 0`.
unfoldable pub init_msix : Bytes → Bool → ℕ → Exec Effect (Unit {0})
unfolding use_msix_vectors uninit_unless
init_msix conf init_ok entries = do
  guard (bars_exist conf) undefined
  perform (
      init_called (AccConf.msix_vec_num conf) (AccConf.msix_table_bar conf)
        (AccConf.msix_table_offset conf) (AccConf.msix_pba_bar conf) (AccConf.msix_pba_offset conf))
  guard init_ok (exits 0)
  used ← use_msix_vectors entries (AccConf.msix_vec_num conf)
  uninit_unless conf used

-- `acc_cleanup_msix`; `present` is `msix_present`.
unfoldable pub cleanup_msix : Bytes → Bool → Exec Effect (Unit {0})
unfolding unuse_msix_vectors
cleanup_msix conf false = ret tt
cleanup_msix conf true = do
  unuse_msix_vectors (AccConf.msix_vec_num conf)
  guard (bars_exist conf) undefined
  perform (uninit_called (AccConf.msix_table_bar conf) (AccConf.msix_pba_bar conf))

-- ===== src/Tests/Settings.antt =====
-- The log, the MSI-X vectors and the BARs at concrete settings.
use Prim.Native.String.{String}
use qemu_hdl_sim.Base.{
  halts, exits, ◌⊎◌, pos, ℕ, ◌≤◌, ◌<◌, ◌≡◌, ◌≢◌, ◌↔◌, refl, sym, ◌∙◌, ap, arith, Bool, true, false,
  Bool-cases, inl, inr, Option, none, some, List, [], ◌∷◌, ◌++◌, ◌==◌, Bytes, zeroes, load, store,
  effects, result, returns,
}
use qemu_hdl_sim.Protocol.AccConf
use qemu_hdl_sim.Device.Log.{
  Settings, Line, error, warn, info, trace, off, rank, log_level_str, parse_loglevel, log_init,
  logv, expired, other, ready, terminated, recv_logged, received, waiting,
}
use qemu_hdl_sim.Device.Log.Levels.{
  lower, IsCaseless, same, same_self, parse_loglevel-str, log_init_lem, logv_iff,
}
use qemu_hdl_sim.Device.Log.Receive.{recv_logged_lem}
use qemu_hdl_sim.Device.Msix.{init_msix, cleanup_msix}
use qemu_hdl_sim.Device.Msix.Balance.{uses, unuses, is_present, init_msix_lem}
use qemu_hdl_sim.Device.Msix.Cleanup.{cleanup_msix_lem}
use qemu_hdl_sim.Device.Lifecycle.{
  Class, class_init, Answers, realize_at, exit, bar_attr, register_bars,
}
use qemu_hdl_sim.Device.Lifecycle.Sockets.{opens, destroys, realize_at-exit}
use qemu_hdl_sim.Protocol.Endpoint.{serial_rx}
use qemu_hdl_sim.Device.Lifecycle.Start.{IsRefused, IsAnswered, class_init_lem}
use qemu_hdl_sim.Device.Lifecycle.Bars.{of_bar, register_bars_lem}

abbrev strcasecmp : String → String → Bool
strcasecmp s t = same (lower s) (lower t)

same-eq : (xs ys : List ℕ) → same xs ys ≡ true → xs ≡ ys
same-eq [] [] h = refl
same-eq [] (y ∷ ys) h = cc
same-eq (x ∷ xs) [] h = cc
same-eq (x ∷ xs) (y ∷ ys) h = elim (Bool-cases (x == y)) [
  | inl e ↦
      let rest : same xs ys ≡ true = (let r = rw e at h in r) in
      let first : x ≡ y = ground arith in let tail = same-eq xs ys rest in cc
  | inr e ↦ absurd (let r = rw e at h in cc)
]

strcasecmp-IsCaseless : IsCaseless strcasecmp
strcasecmp-IsCaseless s t =
    (same-eq (lower s) (lower t), λ e. ap (same (lower s)) (sym e) ∙ same_self (lower s))

parse_loglevel-str_example : parse_loglevel strcasecmp (some "Warn") ≡ warn
unfolding log_level_str
parse_loglevel-str_example = parse_loglevel-str strcasecmp strcasecmp-IsCaseless warn "Warn" refl

log_init_lem_example :
    let level = λ (l d : Option String).
      (log_init strcasecmp
        (λ s. pos 0)
        (record { log_level = l; debug_flag = d; zmq_warn_ms = none })
        10
        none).level in
    (level (some "trace") none ≡ trace)
    × (rank error < rank (level none (some "yes")))
    × (level none (some "0") ≡ error)
    × (level none none ≡ error)
unfolding parse_loglevel
log_init_lem_example =
    log_init_lem strcasecmp strcasecmp-IsCaseless (λ s. pos 0) "trace" "yes" "0" none none 10 refl
      refl

abbrev settings : Settings
settings = record { level = info; warn_ms = 500; t0_us = 1000 }

logv_iff_example :
    ((logv settings warn 5000 ≢ none) ↔ ((rank warn ≤ rank info) × (info ≢ off)))
    × ((l : Line) → logv settings warn 5000 ≡ some l → l.name ≡ "WARN")
unfolding log_level_str
logv_iff_example = logv_iff settings warn 5000

abbrev printed : List Line
printed = record { name = "WARN"; delta_ms = 500 } ∷ record { name = "WARN"; delta_ms = 1000 } ∷ []

recv_logged_lem_example :
    (recv_logged settings true (expired 501000 ∷ other 1001000 ∷ ready ∷ []) none
      ≡ received printed none)
    × (recv_logged settings true (expired 501000 ∷ other 1001000 ∷ terminated ∷ []) none
        ≡ received printed none)
    × (recv_logged settings true (expired 501000 ∷ other 1001000 ∷ []) none ≡ waiting printed)
recv_logged_lem_example =
    recv_logged_lem settings none (expired 501000 ∷ other 1001000 ∷ []) [] (omega arith) tt

-- Four vectors, with both tables in BAR 0, and a BAR 2 of 4 KiB at 64 bits.
abbrev conf : Bytes
conf =
    AccConf.set_is_64 1 (
      AccConf.set_msix_vec_num 4
        (AccConf.set_bar_is_valid 2 1 (AccConf.set_bar_size 2 4096 zeroes)))

init_msix_lem_example :
    (result (init_msix conf true 3) ≡ returns tt)
    × (uses 1 (effects (init_msix conf true 3)) ≡ unuses 1 (effects (init_msix conf true 3)))
    × (result (init_msix conf false 3) ≡ halts (exits 0))
unfolding load store zeroes
init_msix_lem_example =
    let (run, enough, short, fails, unused) = init_msix_lem conf 3 refl 1 in
    (run, (short (omega arith)).0, fails)

cleanup_msix_lem_example :
    let es = effects (init_msix conf true 8) in
    let ds = effects (cleanup_msix conf (is_present false es)) in
    (uses 1 (es ++ ds) ≡ unuses 1 (es ++ ds)) × (is_present false (es ++ ds) ≡ false)
unfolding load store zeroes
cleanup_msix_lem_example = cleanup_msix_lem conf refl 8 1

register_bars_lem_example : of_bar 2 (effects (register_bars conf 6 0)) ≡ (4, 4096) ∷ []
unfolding load store zeroes bar_attr
register_bars_lem_example = register_bars_lem conf 2 (omega arith)

abbrev answers : Answers
answers = record { made = λ c. true; has_fd = λ c. true; msix_ok = true; msix_entries = 3 }

realize_at-exit_example :
    (result (realize_at (pos 7000) conf answers) ≡ returns tt)
    × (result (exit conf true) ≡ returns tt)
    × (opens serial_rx (effects (realize_at (pos 7000) conf answers)) ≡ 1)
    × (destroys serial_rx (effects (exit conf true)) ≡ 0)
unfolding load store zeroes
realize_at-exit_example =
    realize_at-exit conf refl (pos 7000) answers true serial_rx refl refl refl refl refl

class_init_lem_example :
    (IsRefused (some "7000") (some (record { size = 16; bytes = zeroes }))
      × (result (
            class_init
              (λ s. pos 7000)
              (some "7000")
              0
              zeroes
              true
              (some (record { size = 16; bytes = zeroes })))
          ≡ halts (exits 1)))
    ⊎ (IsAnswered (some "7000") (some (record { size = 16; bytes = zeroes }))
        × (k : Class) × (result (
              class_init
                (λ s. pos 7000)
                (some "7000")
                0
                zeroes
                true
                (some (record { size = 16; bytes = zeroes })))
            ≡ returns k))
class_init_lem_example =
    class_init_lem (λ s. pos 7000) 0 zeroes (some "7000")
      (some (record { size = 16; bytes = zeroes }))

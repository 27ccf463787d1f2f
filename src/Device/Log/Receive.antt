-- ===== src/Device/Log/Receive.antt =====
-- Waiting for a frame: what ends the wait, and how often it warns.
use mathlib.Core.List.{append-nil, append_assoc}
use qemu_hdl_sim.Base.{
  ℕ, ◌-◌, ◌/◌, ◌<◌, ◌≡◌, ◌⊎◌, inl, inr, refl, some, if◌then◌else◌, arith, true, false, ◌∙◌, ap,
  Option, none, List, [], ◌∷◌, ◌++◌, Frame, leb, sym,
}
use qemu_hdl_sim.Device.Log.{
  Settings, LogLevel, off, error, warn, info, debug, trace, rank, Line, logv, log_level_str,
  print_line, Wake, terminated, expired, other, ready, waiting, received, wait_loop, recv_logged,
}

-- Wake-ups that neither bring a frame nor end the poller.
abbrev pub AllIdle : List Wake → Type 0
AllIdle [] = Unit {0}
AllIdle (terminated ∷ ws) = ⊥
AllIdle (ready ∷ ws) = ⊥
AllIdle (expired now_us ∷ ws) = AllIdle ws
AllIdle (other now_us ∷ ws) = AllIdle ws

-- A warning for each of them, with the milliseconds since the start.
abbrev pub warnings : ℕ → List Wake → List Line
warnings t0_us [] = []
warnings t0_us (expired now_us ∷ ws) =
    record { name = "WARN"; delta_ms = (now_us - t0_us) / 1000 } ∷ warnings t0_us ws
warnings t0_us (other now_us ∷ ws) =
    record { name = "WARN"; delta_ms = (now_us - t0_us) / 1000 } ∷ warnings t0_us ws
warnings t0_us (_ ∷ ws) = warnings t0_us ws

-- The warnings that the level lets through: all of them from WARN on, and none below.
abbrev pub shown : Settings → List Wake → List Line
shown s ws = if leb (rank warn) (rank s.level) then warnings s.t0_us ws else []

level-cases :
    (s : Settings)
    → ((leb (rank warn) (rank s.level) ≡ true)
        × ((now_us : ℕ)
            → logv s warn now_us
              ≡ some (record { name = "WARN"; delta_ms = (now_us - s.t0_us) / 1000 })))
      ⊎ ((leb (rank warn) (rank s.level) ≡ false) × ((now_us : ℕ) → logv s warn now_us ≡ none))
unfolding logv log_level_str
level-cases s = go s.level
  where
    go :
        (l : LogLevel)
        → ((leb (rank warn) (rank l) ≡ true)
            × ((now_us : ℕ)
                → logv (record s { level = l }) warn now_us
                  ≡ some (record { name = "WARN"; delta_ms = (now_us - s.t0_us) / 1000 })))
          ⊎ ((leb (rank warn) (rank l) ≡ false)
              × ((now_us : ℕ) → logv (record s { level = l }) warn now_us ≡ none))
    go off = inr (refl, λ n. refl)
    go error = inr (refl, λ n. refl)
    go warn = inl (refl, λ n. refl)
    go info = inl (refl, λ n. refl)
    go debug = inl (refl, λ n. refl)
    go trace = inl (refl, λ n. refl)

module _ (s : Settings) (frame : Option Frame) (rest : List Wake) where
  after :
      (printed : List Line) (ws : List Wake) (now_us : ℕ) {l : Option Line}
      → logv s warn now_us ≡ l
      → wait_loop s frame (print_line printed (logv s warn now_us)) ws
        ≡ wait_loop s frame (print_line printed l) ws
  after printed ws now_us e = ap (λ l. wait_loop s frame (print_line printed l) ws) e

  module _
      (line : (now_us : ℕ)
        → logv s warn now_us
          ≡ some (record { name = "WARN"; delta_ms = (now_us - s.t0_us) / 1000 })) where
    loud :
        (idle : List Wake) (printed : List Line)
        → AllIdle idle
        → wait_loop s frame printed (idle ++ rest)
          ≡ wait_loop s frame (printed ++ warnings s.t0_us idle) rest
    unfolding wait_loop print_line
    loud [] printed h = ap (λ ls. wait_loop s frame ls rest) (sym (append-nil printed))
    loud (terminated ∷ ws) printed h = absurd h
    loud (ready ∷ ws) printed h = absurd h
    loud (expired now_us ∷ ws) printed h =
        after printed (ws ++ rest) now_us (line now_us)
        ∙ loud ws _ h
        ∙ ap (λ ls. wait_loop s frame ls rest) (append_assoc printed _ (warnings s.t0_us ws))
    loud (other now_us ∷ ws) printed h =
        after printed (ws ++ rest) now_us (line now_us)
        ∙ loud ws _ h
        ∙ ap (λ ls. wait_loop s frame ls rest) (append_assoc printed _ (warnings s.t0_us ws))

  quiet :
      ((now_us : ℕ) → logv s warn now_us ≡ none)
      → (idle : List Wake) (printed : List Line) → AllIdle idle
      → wait_loop s frame printed (idle ++ rest) ≡ wait_loop s frame printed rest
  unfolding wait_loop print_line
  quiet none_ [] printed h = refl
  quiet none_ (terminated ∷ ws) printed h = absurd h
  quiet none_ (ready ∷ ws) printed h = absurd h
  quiet none_ (expired now_us ∷ ws) printed h =
      after printed (ws ++ rest) now_us (none_ now_us) ∙ quiet none_ ws printed h
  quiet none_ (other now_us ∷ ws) printed h =
      after printed (ws ++ rest) now_us (none_ now_us) ∙ quiet none_ ws printed h

  wait_loop-idle :
      (idle : List Wake)
      → AllIdle idle
      → wait_loop s frame [] (idle ++ rest) ≡ wait_loop s frame (shown s idle) rest
  wait_loop-idle idle h = elim (level-cases s) [
    | inl (lets, line) ↦ rw lets (loud line idle [] h)
    | inr (hides, none_) ↦ rw hides (quiet none_ idle [] h)
  ]

polls : (s : Settings) → 0 < s.warn_ms → leb s.warn_ms 0 ≡ false
polls s h = ground arith

-- With a warning interval and a poller, `acc_zframe_recv_logged` returns what `zframe_recv` gives
-- as soon as the socket is ready, returns NULL as soon as the poller is terminated, and until one
-- of these it goes on waiting. Where the level of the log is WARN or above, it has then printed one
-- warning for each idle wake-up before, in order, with the time since the log was set up; below
-- WARN it has printed none.
pub recv_logged_lem :
    (s : Settings) (frame : Option Frame) (idle rest : List Wake)
    → 0 < s.warn_ms
    → AllIdle idle
    → (recv_logged s true (idle ++ ready ∷ rest) frame ≡ received (shown s idle) frame)
      × (recv_logged s true (idle ++ terminated ∷ rest) frame ≡ received (shown s idle) none)
      × (recv_logged s true idle frame ≡ waiting (shown s idle))
unfolding recv_logged wait_loop
recv_logged_lem s frame idle rest h i = rw (polls s h) (
  wait_loop-idle s frame (ready ∷ rest) idle i,
  wait_loop-idle s frame (terminated ∷ rest) idle i,
  ap (wait_loop s frame []) (sym (append-nil idle)) ∙ wait_loop-idle s frame [] idle i,
)

-- ===== src/Device/Log.antt =====
-- The log of accelerator_pcie.c: its level and settings from the environment, the gate of
-- `acc_logv`, and the receive that warns while it waits. `g_ascii_strcasecmp` (GLib) and `atoi`
-- (libc) are arguments; `strcmp` is equality of texts. What a message says is not modelled.
pub mod Levels
pub mod Receive
use Prim.Native.String.{String}
use text.Mathlib.Text.{◌==◌ as str_eq}
use qemu_hdl_sim.Base.{
  ◌++◌, ℕ, zero, suc, ◌+◌, ◌-◌, ◌/◌, Bool, true, false, not, ◌||◌, ◌&&◌, Option, none, some, List,
  [], ◌∷◌, ℤ, pos, negsuc, pos_part, Frame, ltb, leb, if◌then◌else◌,
}

-- ACCLogLevel
pub data LogLevel : Type 0 where
  off error warn info debug trace : LogLevel

abbrev pub rank : LogLevel → ℕ
rank off = 0
rank error = 1
rank warn = 2
rank info = 3
rank debug = 4
rank trace = 5

-- `!*s`
abbrev pub is_empty : String → Bool
is_empty String.[] = true
is_empty (String.◌∷◌ c s) = false

-- `acc_log_level_str`
unfoldable pub log_level_str : LogLevel → String
log_level_str error = "ERROR"
log_level_str warn = "WARN"
log_level_str info = "INFO"
log_level_str debug = "DEBUG"
log_level_str trace = "TRACE"
log_level_str off = "OFF"

-- The variables that `acc_log_init` reads, none where one is not set.
pub record Environment : Type 0 where
  pub log_level : Option String
  pub debug_flag : Option String
  pub zmq_warn_ms : Option String

-- `acc_log_level`, `acc_zmq_warn_ms` (never negative) and `acc_log_t0_us`.
pub record Settings : Type 0 where
  pub level : LogLevel
  pub warn_ms : ℕ
  pub t0_us : ℕ

-- `strcasecmp s t` is true where `g_ascii_strcasecmp` returns 0.
module _ (strcasecmp : String → String → Bool) where
  -- `acc_parse_loglevel`
  unfoldable pub parse_loglevel : Option String → LogLevel
  parse_loglevel none = error
  parse_loglevel (some s) =
      if is_empty s
      then error
      else if strcasecmp s "off" || strcasecmp s "0"
      then off
      else if strcasecmp s "error" || (strcasecmp s "err" || strcasecmp s "1")
      then error
      else if strcasecmp s "warn" || (strcasecmp s "warning" || strcasecmp s "2")
      then warn
      else if strcasecmp s "info" || strcasecmp s "3"
      then info
      else if strcasecmp s "debug" || (strcasecmp s "dbg" || strcasecmp s "4")
      then debug
      else if strcasecmp s "trace" || strcasecmp s "5"
      then trace
      else error

  -- The level from ACCELERATOR_DEBUG, where ACCELERATOR_LOG_LEVEL is not set.
  unfoldable pub debug_level : Option String → LogLevel
  unfolding parse_loglevel
  debug_level none = error
  debug_level (some dbg) =
      if not (str_eq dbg "0")
      then (let l = parse_loglevel (some dbg) in if leb (rank l) (rank error) then debug else l)
      else error

  unfoldable pub initial_level : Option String → Option String → LogLevel
  unfolding parse_loglevel debug_level
  initial_level (some lvl) dbg = parse_loglevel (some lvl)
  initial_level none dbg = debug_level dbg

  module _ (atoi : String → ℤ) where
    unfoldable pub initial_warn_ms : Option String → ℕ
    initial_warn_ms none = 0
    initial_warn_ms (some s) = if is_empty s then 0 else pos_part (atoi s)

    -- `acc_log_init`: `g_once_init_enter` lets the first call alone set the globals. `inited` is
    -- what an earlier call set.
    unfoldable pub log_init : Environment → ℕ → Option Settings → Settings
    unfolding initial_level initial_warn_ms
    log_init env now_us (some inited) = inited
    log_init env now_us none = record {
      level = initial_level env.log_level env.debug_flag;
      warn_ms = initial_warn_ms env.zmq_warn_ms;
      t0_us = now_us;
    }

-- The prefix of a line of the log.
pub record Line : Type 0 where
  pub name : String
  pub delta_ms : ℕ

abbrev pub is_off : LogLevel → Bool
is_off off = true
is_off _ = false

-- `acc_logv` after its `acc_log_init`: the line that it prints, if it prints one. The clock is
-- monotonic, so `now_us` is never before `t0_us`.
unfoldable pub logv : Settings → LogLevel → ℕ → Option Line
unfolding log_level_str
logv s level now_us =
    if ltb (rank s.level) (rank level) || is_off s.level
    then none
    else some (record { name = log_level_str level; delta_ms = (now_us - s.t0_us) / 1000 })

-- How one `zpoller_wait` ends: the poller was terminated, the time ran out, another socket or none
-- was returned, or the socket is ready. The number is the clock of the warning that follows.
pub data Wake : Type 0 where
  terminated ready : Wake
  expired other : ℕ → Wake

-- The receive is still waiting, or has returned a frame or NULL; with the warnings it printed.
pub data Receipt : Type 0 where
  waiting : List Line → Receipt
  received : List Line → Option Frame → Receipt

-- The lines printed, after one message more. `acc_logv` may keep the message back.
unfoldable pub print_line : List Line → Option Line → List Line
print_line printed none = printed
print_line printed (some l) = printed ++ l ∷ []

module _ (s : Settings) (frame : Option Frame) where
  -- The loop of `acc_zframe_recv_logged`, over the wake-ups in order. `frame` is what `zframe_recv`
  -- returns once the socket is ready.
  unfoldable pub wait_loop : List Line → List Wake → Receipt
  unfolding logv print_line
  wait_loop printed [] = waiting printed
  wait_loop printed (terminated ∷ ws) = received printed none
  wait_loop printed (expired now_us ∷ ws) = wait_loop (print_line printed (logv s warn now_us)) ws
  wait_loop printed (other now_us ∷ ws) = wait_loop (print_line printed (logv s warn now_us)) ws
  wait_loop printed (ready ∷ ws) = received printed frame

-- `acc_zframe_recv_logged`. `poller` says whether `zpoller_new` made a poller. Of its messages, the
-- warnings of the loop are modelled.
unfoldable pub recv_logged : Settings → Bool → List Wake → Option Frame → Receipt
unfolding wait_loop
recv_logged s poller wakes frame =
    if leb s.warn_ms 0
    then received [] frame
    else if not poller
    then received [] frame
    else wait_loop s frame [] wakes

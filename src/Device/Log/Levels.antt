-- ===== src/Device/Log/Levels.antt =====
-- The level of the log: how it is spelled, where it comes from, and what it lets through.
use Prim.Native.Char.{code}
use Prim.Native.String.{String}
use text.Mathlib.Text.{◌==◌ as str_eq}
use qemu_hdl_sim.Base.{
  ℕ, ◌+◌, ◌≤◌, ◌<◌, ◌≡◌, ◌≢◌, ◌↔◌, ◌∙◌, sym, refl, arith, Bool, true, false, ◌&&◌, Option, none,
  some, List, [], ◌∷◌, leb, ◌==◌, if◌then◌else◌, Bool-cases, inl, inr, ℤ,
}
use qemu_hdl_sim.Device.Log.{
  LogLevel, off, error, warn, info, debug, trace, rank, is_empty, log_level_str, parse_loglevel,
  debug_level, log_init, initial_level, Settings, Line, logv, is_off,
}

-- The codes of a text with A to Z in lower case.
abbrev pub lower : String → List ℕ
lower String.[] = []
lower (String.◌∷◌ c s) =
    (if leb b'A' (code c) && leb (code c) b'Z' then code c + 32 else code c) ∷ lower s

-- `g_ascii_strcasecmp` returns 0 for texts that differ in the case of ASCII letters only.
abbrev pub IsCaseless : (String → String → Bool) → Type 0
IsCaseless strcasecmp = (s t : String) → (strcasecmp s t ≡ true) ↔ (lower s ≡ lower t)

abbrev pub same : List ℕ → List ℕ → Bool
same [] [] = true
same [] (y ∷ ys) = false
same (x ∷ xs) [] = false
same (x ∷ xs) (y ∷ ys) = x == y && same xs ys

pub same_self : (xs : List ℕ) → same xs xs ≡ true
same_self [] = refl
same_self (x ∷ xs) = ground (arith, same_self xs)

ne_of_same : (xs ys : List ℕ) → same xs ys ≡ false → xs ≢ ys
ne_of_same xs ys h e = let all = same_self xs in cc

module _ (strcasecmp : String → String → Bool) (caseless : IsCaseless strcasecmp) where
  differs : (s t : String) → lower s ≢ lower t → strcasecmp s t ≡ false
  differs s t ne = elim (Bool-cases (strcasecmp s t)) [
    | inl e ↦ absurd (ne ((caseless s t).0 e))
    | inr e ↦ e
  ]

  other :
      (s t u : String)
      → lower s ≡ lower t
      → same (lower t) (lower u) ≡ false
      → strcasecmp s u ≡ false
  other s t u e h = differs s u (λ p. ne_of_same (lower t) (lower u) h (sym e ∙ p))

  -- The tests before those for a level fail on its name, and one of its own succeeds.
  parse-off :
      (s : String)
      → is_empty s ≡ false
      → lower s ≡ lower "OFF"
      → parse_loglevel strcasecmp (some s) ≡ off
  unfolding parse_loglevel
  parse-off s full e = rw (full, (caseless s "off").1 e)

  parse-error :
      (s : String)
      → is_empty s ≡ false
      → lower s ≡ lower "ERROR"
      → parse_loglevel strcasecmp (some s) ≡ error
  unfolding parse_loglevel
  parse-error s full e =
      rw (full, other s "ERROR" "off" e refl, other s "ERROR" "0" e refl, (caseless s "error").1 e)

  parse-warn :
      (s : String)
      → is_empty s ≡ false
      → lower s ≡ lower "WARN"
      → parse_loglevel strcasecmp (some s) ≡ warn
  unfolding parse_loglevel
  parse-warn s full e = rw (
    full,
    other s "WARN" "off" e refl,
    other s "WARN" "0" e refl,
    other s "WARN" "error" e refl,
    other s "WARN" "err" e refl,
    other s "WARN" "1" e refl,
    (caseless s "warn").1 e,
  )

  parse-info :
      (s : String)
      → is_empty s ≡ false
      → lower s ≡ lower "INFO"
      → parse_loglevel strcasecmp (some s) ≡ info
  unfolding parse_loglevel
  parse-info s full e = rw (
    full,
    other s "INFO" "off" e refl,
    other s "INFO" "0" e refl,
    other s "INFO" "error" e refl,
    other s "INFO" "err" e refl,
    other s "INFO" "1" e refl,
    other s "INFO" "warn" e refl,
    other s "INFO" "warning" e refl,
    other s "INFO" "2" e refl,
    (caseless s "info").1 e,
  )

  parse-debug :
      (s : String)
      → is_empty s ≡ false
      → lower s ≡ lower "DEBUG"
      → parse_loglevel strcasecmp (some s) ≡ debug
  unfolding parse_loglevel
  parse-debug s full e = rw (
    full,
    other s "DEBUG" "off" e refl,
    other s "DEBUG" "0" e refl,
    other s "DEBUG" "error" e refl,
    other s "DEBUG" "err" e refl,
    other s "DEBUG" "1" e refl,
    other s "DEBUG" "warn" e refl,
    other s "DEBUG" "warning" e refl,
    other s "DEBUG" "2" e refl,
    other s "DEBUG" "info" e refl,
    other s "DEBUG" "3" e refl,
    (caseless s "debug").1 e,
  )

  parse-trace :
      (s : String)
      → is_empty s ≡ false
      → lower s ≡ lower "TRACE"
      → parse_loglevel strcasecmp (some s) ≡ trace
  unfolding parse_loglevel
  parse-trace s full e = rw (
    full,
    other s "TRACE" "off" e refl,
    other s "TRACE" "0" e refl,
    other s "TRACE" "error" e refl,
    other s "TRACE" "err" e refl,
    other s "TRACE" "1" e refl,
    other s "TRACE" "warn" e refl,
    other s "TRACE" "warning" e refl,
    other s "TRACE" "2" e refl,
    other s "TRACE" "info" e refl,
    other s "TRACE" "3" e refl,
    other s "TRACE" "debug" e refl,
    other s "TRACE" "dbg" e refl,
    other s "TRACE" "4" e refl,
    (caseless s "trace").1 e,
  )

  not_empty : (l : LogLevel) (s : String) → lower s ≡ lower (log_level_str l) → is_empty s ≡ false
  unfolding log_level_str
  not_empty l (String.◌∷◌ c r) e = refl
  not_empty off String.[] e = cc
  not_empty error String.[] e = cc
  not_empty warn String.[] e = cc
  not_empty info String.[] e = cc
  not_empty debug String.[] e = cc
  not_empty trace String.[] e = cc

  -- If `g_ascii_strcasecmp` tells texts apart up to case, then the name that `acc_log_level_str`
  -- gives a level, written in any case, is parsed as that level.
  pub parse_loglevel-str :
      (l : LogLevel) (s : String)
      → lower s ≡ lower (log_level_str l)
      → parse_loglevel strcasecmp (some s) ≡ l
  unfolding log_level_str
  parse_loglevel-str off s e = parse-off s (not_empty off s e) e
  parse_loglevel-str error s e = parse-error s (not_empty error s e) e
  parse_loglevel-str warn s e = parse-warn s (not_empty warn s e) e
  parse_loglevel-str info s e = parse-info s (not_empty info s e) e
  parse_loglevel-str debug s e = parse-debug s (not_empty debug s e) e
  parse_loglevel-str trace s e = parse-trace s (not_empty trace s e) e

  -- In the first call of `acc_log_init`, ACCELERATOR_LOG_LEVEL decides alone where it is set. Where
  -- it is not, ACCELERATOR_DEBUG with a value other than "0" gives a level above ERROR, and with
  -- "0" or unset the level is ERROR.
  pub log_init_lem :
      (atoi : String → ℤ) (lvl flag cleared : String) (dbg zmq : Option String) (now_us : ℕ)
      → str_eq flag "0" ≡ false
      → str_eq cleared "0" ≡ true
      → let level = λ (l d : Option String).
        (log_init strcasecmp atoi
          (record { log_level = l; debug_flag = d; zmq_warn_ms = zmq })
          now_us
          none).level in
        (level (some lvl) dbg ≡ parse_loglevel strcasecmp (some lvl))
        × (rank error < rank (level none (some flag)))
        × (level none (some cleared) ≡ error)
        × (level none none ≡ error)
  unfolding log_init initial_level debug_level
  log_init_lem atoi lvl flag cleared dbg zmq now_us set clear =
      (refl, ground arith, ground arith, refl)

is_off_iff : (l : LogLevel) → (is_off l ≡ true) ↔ (l ≡ off)
is_off_iff off = ground arith
is_off_iff error = ground arith
is_off_iff _ = ground arith

-- A message is printed exactly if its level is at most the level set and that is not OFF, and then
-- under its level's name.
pub logv_iff :
    (s : Settings) (level : LogLevel) (now_us : ℕ)
    → ((logv s level now_us ≢ none) ↔ ((rank level ≤ rank s.level) × (s.level ≢ off)))
      × ((l : Line) → logv s level now_us ≡ some l → l.name ≡ log_level_str level)
unfolding logv
logv_iff s level now_us = (
  (λ p. (ground arith, λ e. p (rw e (ground arith))), λ h. ground (arith, is_off_iff s.level)),
  λ l e. ground arith,
)

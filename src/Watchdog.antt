-- ===== src/Watchdog.antt =====
-- `watchdog_enabled` of mpsystemd/daemon.py and `watchdog_period_ms` of mpsystemd/watchdog.py.
pub mod Enabled
pub mod Period
pub mod Task
use micropython_systemd.Prelude.{
  ℕ, zero, suc, ◌/◌, Bool, true, false, [], ◌∷◌, Option, none, some, Text, ltb, if◌then◌else◌, ℤ,
  pos, negsuc, eq_ℤ, is_nonpositive, floor_div, ◌==◌,
}
use micropython_systemd.Errors.{Result, ok, err, value_error, bad_divisor}
use micropython_systemd.Exec.{pure, when, ◌>>=◌, ◌>>◌}
use micropython_systemd.World.{M, Libc}
use micropython_systemd.Native.{getenv, unsetenv, getpid}
use micropython_systemd.Text.{Runtime, int_of_text}

-- `not text` for a variable that may be unset
abbrev pub is_blank : Option Text → Bool
is_blank none = true
is_blank (some []) = true
is_blank (some (c ∷ s)) = false

-- int(text), where `none` is the ValueError that the callers catch; a missing text is not read.
abbrev pub int_of : Runtime → Option Text → Option ℤ
int_of run none = none
int_of run (some t) = int_of_text run t

module _ (run : Runtime) (libc : Libc) where
  -- The test of WATCHDOG_PID.
  pub for_this_process : ℤ → Option ℤ → M ℤ
  for_this_process usec none = pure (pos 0)
  for_this_process usec (some pid) = do me ← getpid libc; pure (if eq_ℤ pid me then usec else pos 0)

  -- What follows `usec = int(usec_text)`.
  pub positive_interval : Option ℤ → Option Text → M ℤ
  positive_interval none pid_text = pure (pos 0)
  positive_interval (some usec) pid_text =
      if is_nonpositive usec
      then pure (pos 0)
      else if is_blank pid_text
      then pure usec
      else for_this_process usec (int_of run pid_text)

  pub interval : Option Text → Option Text → M ℤ
  interval usec_text pid_text =
      if is_blank usec_text then pure (pos 0) else positive_interval (int_of run usec_text) pid_text

  unfoldable pub watchdog_enabled : Bool → M ℤ
  unfolding interval positive_interval for_this_process
  watchdog_enabled unset_environment = do
    usec_text ← getenv "WATCHDOG_USEC"
    pid_text ← getenv "WATCHDOG_PID"
    when unset_environment (do unsetenv "WATCHDOG_USEC"; unsetenv "WATCHDOG_PID")
    interval usec_text pid_text

abbrev pub default_divisor : ℤ
default_divisor = pos 2

abbrev pub usec_per_ms : ℕ
usec_per_ms = 1000

abbrev pub min_period_ms : ℤ
min_period_ms = pos 1

-- divisor < 1 raises; then a // b for a positive b.
unfoldable pub watchdog_period_ms : ℤ → ℤ → Result ℤ
watchdog_period_ms interval_us (negsuc d) = err (value_error bad_divisor)
watchdog_period_ms interval_us (pos zero) = err (value_error bad_divisor)
watchdog_period_ms interval_us (pos (suc d)) =
    let period = floor_div (floor_div interval_us (suc d)) usec_per_ms in
    ok (if is_nonpositive period then min_period_ms else period)

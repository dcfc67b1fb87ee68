-- ===== src/Watchdog/Enabled.antt =====
-- When `watchdog_enabled` reports an interval, and what it does to the environment.
use text.Mathlib.Text.{◌==◌ as str_eq}
use micropython_systemd.Prelude.{
  ℕ, zero, suc, ◌≡◌, ◌≢◌, ◌↔◌, ◌⊎◌, refl, true, false, Bool, ◌||◌, ◌&&◌, Option, none, some, [],
  ◌∷◌, arith, Text, String, ℤ, pos, negsuc, if◌then◌else◌, eq_ℤ_iff,
}
use micropython_systemd.Errors.{Error, ok, err}
use micropython_systemd.World.{World, Libc}
use micropython_systemd.World
use micropython_systemd.World.Environment
use micropython_systemd.World.Environment.{env_laws}
use micropython_systemd.Text.{Runtime, int_of_text}
use micropython_systemd.Watchdog.{
  is_blank, int_of, watchdog_enabled, interval, positive_interval, for_this_process,
}

-- What each part of the decision needs for the answer `suc n`.
module _ (run : Runtime) (libc : Libc) (w : World) (n : ℕ) where
  for_this_process_iff :
      (usec : ℤ) (pid : Option ℤ)
      → ((for_this_process run libc usec pid w).0 ≡ ok (pos (suc n)))
        ↔ ((usec ≡ pos (suc n)) × (pid ≡ some (libc w.trace World.getpid).ret))
  unfolding for_this_process
  for_this_process_iff usec none = ground arith
  for_this_process_iff usec (some pid) =
      ground (arith, eq_ℤ_iff pid (libc w.trace World.getpid).ret)

  positive_interval_iff :
      (usec : Option ℤ) (pid : Option Text)
      → ((positive_interval run libc usec pid w).0 ≡ ok (pos (suc n))) ↔ (
          (usec ≡ some (pos (suc n)))
          × ((is_blank pid ≡ true)
              ⊎ ((is_blank pid ≡ false) × (int_of run pid ≡ some (libc w.trace World.getpid).ret))))
  unfolding positive_interval
  positive_interval_iff none pid = ground arith
  positive_interval_iff (some (pos zero)) pid = ground arith
  positive_interval_iff (some (negsuc k)) pid = ground arith
  positive_interval_iff (some (pos (suc k))) pid =
      ground (arith, for_this_process_iff (pos (suc k)) (int_of run pid))

  interval_iff :
      (usec pid : Option Text)
      → ((interval run libc usec pid w).0 ≡ ok (pos (suc n))) ↔ (
          (int_of run usec ≡ some (pos (suc n)))
          × ((is_blank pid ≡ true)
              ⊎ ((is_blank pid ≡ false) × (int_of run pid ≡ some (libc w.trace World.getpid).ret))))
  unfolding interval
  interval_iff none pid = ground arith
  interval_iff (some []) pid = unfold int_of_text in ground arith
  interval_iff (some (c ∷ s)) pid = positive_interval_iff (int_of run (some (c ∷ s))) pid

  interval_total :
      (usec pid : Option Text)
      → ((e : Error) → (interval run libc usec pid w).0 ≢ err e)
        × ((interval run libc usec pid w).1.env ≡ w.env)
  unfolding interval positive_interval for_this_process
  interval_total none pid = (λ e. ground arith, refl)
  interval_total (some []) pid = (λ e. ground arith, refl)
  interval_total (some (c ∷ s)) pid = (λ e. ground arith, ground arith)

module _ (run : Runtime) (libc : Libc) (w : World) where
  -- The two variables before the call.
  abbrev pub usec_text : Option Text
  usec_text = Environment.lookup "WATCHDOG_USEC" w.env

  abbrev pub pid_text : Option Text
  pid_text = Environment.lookup "WATCHDOG_PID" w.env

  -- The world once the two variables are gone.
  abbrev forget : World
  forget = record w {
    env = Environment.erase "WATCHDOG_PID" (Environment.erase "WATCHDOG_USEC" w.env);
  }

  -- `watchdog_enabled` reports a positive interval exactly when WATCHDOG_USEC reads as that number
  -- and WATCHDOG_PID is unset or empty, or reads as the number that getpid returns.
  pub watchdog_enabled_iff :
      (unset : Bool) (n : ℕ)
      → ((watchdog_enabled run libc unset w).0 ≡ ok (pos (suc n))) ↔ (
          (int_of run usec_text ≡ some (pos (suc n)))
          × ((is_blank pid_text ≡ true)
              ⊎ ((is_blank pid_text ≡ false)
                  × (int_of run pid_text ≡ some (libc w.trace World.getpid).ret))))
  unfolding watchdog_enabled
  watchdog_enabled_iff true n = interval_iff run libc forget n usec_text pid_text
  watchdog_enabled_iff false n = interval_iff run libc w n usec_text pid_text

  -- `watchdog_enabled` never raises. It leaves every variable as it is, but when it is told to
  -- unset the environment it removes WATCHDOG_USEC and WATCHDOG_PID, whatever it reports.
  pub watchdog_enabled-env :
      (unset : Bool)
      → ((e : Error) → (watchdog_enabled run libc unset w).0 ≢ err e)
        × ((name : String)
            → Environment.lookup name (watchdog_enabled run libc unset w).1.env ≡ (
                if unset && (str_eq "WATCHDOG_USEC" name || str_eq "WATCHDOG_PID" name)
                then none
                else Environment.lookup name w.env))
  unfolding watchdog_enabled
  watchdog_enabled-env true =
      let (returns, same) = interval_total run libc forget 0 usec_text pid_text in
      (returns, λ name. rw same (simp env_laws (ground arith)))
  watchdog_enabled-env false =
      let (returns, same) = interval_total run libc w 0 usec_text pid_text in
      (returns, λ name. rw same refl)

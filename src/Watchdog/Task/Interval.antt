-- ===== src/Watchdog/Task/Interval.antt =====
-- What finding the interval of watchdog_loop of mpsystemd/watchdog.py asks of libc.
use micropython_systemd.Prelude.{
  ◌≡◌, refl, ap, ◌⊎◌, inl, inr, Bool-cases, Option, none, some, Text, ℤ, is_nonpositive,
}
use micropython_systemd.World.{World, Libc, record_call, getpid}
use micropython_systemd.World.Environment
use micropython_systemd.Text.{Runtime}
use micropython_systemd.Watchdog.{
  watchdog_enabled, interval, positive_interval, for_this_process, is_blank, int_of,
}
use micropython_systemd.Watchdog.Task.{interval_or}

module _ (run : Runtime) (libc : Libc) where
  -- Finding the interval asks for the process id at most, and leaves the environment.
  pub Asks : World → World → Type 0
  Asks w v = (v ≡ w) ⊎ (v ≡ record_call libc getpid w)

  for_this_process-Asks :
      (usec : ℤ) (pid : Option ℤ) (w : World) → Asks w (for_this_process run libc usec pid w).1
  unfolding Asks for_this_process
  for_this_process-Asks usec none w = inl refl
  for_this_process-Asks usec (some pid) w = inr refl

  positive_interval-Asks :
      (usec : Option ℤ) (pid_text : Option Text) (w : World)
      → Asks w (positive_interval run libc usec pid_text w).1
  unfolding Asks positive_interval
  positive_interval-Asks none pid_text w = inl refl
  positive_interval-Asks (some usec) pid_text w = elim (Bool-cases (is_nonpositive usec)) [
    | inl p ↦ rw p (inl refl)
    | inr p ↦ elim (Bool-cases (is_blank pid_text)) [
      | inl q ↦ rw (p, q) (inl refl)
      | inr q ↦ rw (p, q) (for_this_process-Asks usec (int_of run pid_text) w)
    ]
  ]

  pub interval_or-Asks :
      (interval_us : Option ℤ) (w : World) → Asks w (interval_or run libc interval_us w).1
  unfolding Asks watchdog_enabled interval
  interval_or-Asks (some interval_us) w = inl refl
  interval_or-Asks none w =
      elim (Bool-cases (is_blank (Environment.lookup "WATCHDOG_USEC" w.env))) [
        | inl p ↦ rw p (inl refl)
        | inr p ↦ rw p (
            positive_interval-Asks (int_of run (Environment.lookup "WATCHDOG_USEC" w.env))
              (Environment.lookup "WATCHDOG_PID" w.env) w)
      ]

  pub env-Asks : (w v : World) → Asks w v → v.env ≡ w.env
  unfolding Asks
  env-Asks w v (inl e) = ap (λ u. u.env) e
  env-Asks w v (inr e) = ap (λ u. u.env) e

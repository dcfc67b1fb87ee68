-- ===== src/Watchdog/Task.antt =====
-- mpsystemd/watchdog.py: watchdog_loop and start_watchdog. The coroutine runs until it ends, and
-- the sleep of asyncio is a parameter. The loop goes on forever unless a step raises, so a run has
-- a number of sleeps to complete, and the one after them raises, as it does when the task is
-- cancelled.
pub mod Interval
pub mod Pings
use micropython_systemd.Prelude.{
  ℕ, zero, suc, Bool, true, false, List, [], ◌∷◌, Option, none, some, if◌then◌else◌, ℤ, pos, eq_ℤ,
}
use micropython_systemd.Errors.{Result, ok, err, Error}
use micropython_systemd.Exec.{Exec, pure, raise, lift, finally, ◌>>=◌, ◌>>◌}
use micropython_systemd.World.{World, M, Libc}
use micropython_systemd.Text.{Runtime}
use micropython_systemd.Native.Struct.{Abi}
use micropython_systemd.Watchdog.{watchdog_enabled, watchdog_period_ms}
use micropython_systemd.Notifier.{
  Notifier, State, N, on_world, with_notifier, available, watchdog_ping,
}
use micropython_systemd.Notifier

-- The notifier that the caller passes, where it passes one, and the world.
pub record Task : Type 0 where
  pub notifier : Option Notifier
  pub world : World

abbrev pub on_task {ℓ} : {A : Type ℓ} → M A → Exec Task A
on_task m t = let (r, w) = m t.world in (r, record t { world = w })

module _ (run : Runtime) (libc : Libc) where
  abbrev pub interval_or : Option ℤ → M ℤ
  interval_or none = watchdog_enabled run libc false
  interval_or (some interval_us) = pure interval_us

module _ (run : Runtime) (abi : Abi) (libc : Libc) (sleep_ms : ℤ → M (Unit {0}))
    (cancelled : Error) where
  -- while True: notifier.watchdog_ping(); await sleep_ms(period_ms)
  unfoldable pub ping_loop : ℤ → ℕ → N (Unit {0})
  ping_loop period_ms zero = do watchdog_ping run abi libc; raise cancelled
  ping_loop period_ms (suc sleeps) = do
    watchdog_ping run abi libc
    on_world (sleep_ms period_ms)
    ping_loop period_ms sleeps

  -- The body of try.
  abbrev pub ping_if_available : ℤ → ℕ → N (Unit {0})
  ping_if_available period_ms sleeps s =
      if available s.notifier then ping_loop period_ms sleeps s else (ok tt, s)

  -- The part behind the period: with a notifier of its own, which it closes, or with the caller's.
  abbrev pub serve : ℤ → ℕ → Exec Task (Unit {0})
  serve period_ms sleeps t = elim t.notifier [
    | none ↦ on_task (with_notifier run abi libc (ping_if_available period_ms sleeps)) t
    | some n ↦
        let (r, s) =
          ping_if_available period_ms sleeps (record { notifier = n; world = t.world }) in
        (r, record { notifier = some s.notifier; world = s.world })
  ]

  abbrev pub serve_interval : ℤ → ℕ → ℤ → Exec Task (Unit {0})
  serve_interval divisor sleeps interval_us =
      if eq_ℤ interval_us (pos 0)
      then pure tt
      else (do period_ms ← lift (watchdog_period_ms interval_us divisor); serve period_ms sleeps)

  unfoldable pub watchdog_loop : Option ℤ → ℤ → ℕ → Exec Task (Unit {0})
  watchdog_loop interval_us divisor sleeps = do
    found ← on_task (interval_or run libc interval_us)
    serve_interval divisor sleeps found

  -- The coroutine of the task that start_watchdog creates.
  unfoldable pub start_watchdog : Option ℤ → ℤ → Exec Task (Option (ℕ → Exec Task (Unit {0})))
  start_watchdog interval_us divisor = do
    found ← on_task (interval_or run libc interval_us)
    if eq_ℤ found (pos 0) then pure none else pure (some (watchdog_loop (some found) divisor))

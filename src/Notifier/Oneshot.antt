-- ===== src/Notifier/Oneshot.antt =====
-- mpsystemd/daemon.py, the functions of the module: each makes a Notifier for one message.
use micropython_systemd.Prelude.{Bool, Option, List, Text, ℤ}
use micropython_systemd.World.{M, Libc}
use micropython_systemd.Utf8.{Chars}
use micropython_systemd.Text.{Runtime}
use micropython_systemd.Payload.{Fields, Value}
use micropython_systemd.Native.Struct.{Abi}
use micropython_systemd.Notifier.{with_notifier}
use micropython_systemd.Notifier

module _ (run : Runtime) (abi : Abi) (libc : Libc) where
  abbrev pub notify : List Chars → Fields → M Bool
  notify states fields = with_notifier run abi libc (Notifier.notify run abi libc states fields)

  abbrev pub ready : Option Value → M Bool
  ready text = with_notifier run abi libc (Notifier.ready run abi libc text)

  abbrev pub stopping : Option Value → M Bool
  stopping text = with_notifier run abi libc (Notifier.stopping run abi libc text)

  abbrev pub reloading : Option Value → M Bool
  reloading text = with_notifier run abi libc (Notifier.reloading run abi libc text)

  abbrev pub status : Value → M Bool
  status text = with_notifier run abi libc (Notifier.status run abi libc text)

  abbrev pub errno : ℤ → M Bool
  errno value = with_notifier run abi libc (Notifier.errno run abi libc value)

  abbrev pub main_pid : Option ℤ → M Bool
  main_pid pid = with_notifier run abi libc (Notifier.main_pid run abi libc pid)

  abbrev pub extend_timeout : ℤ → M Bool
  extend_timeout usec = with_notifier run abi libc (Notifier.extend_timeout run abi libc usec)

  abbrev pub watchdog_ping : M Bool
  watchdog_ping = with_notifier run abi libc (Notifier.watchdog_ping run abi libc)

  abbrev pub watchdog_trigger : M Bool
  watchdog_trigger = with_notifier run abi libc (Notifier.watchdog_trigger run abi libc)

  abbrev pub fdstore : List ℤ → Option Text → Option Bool → M Bool
  fdstore fds name poll = with_notifier run abi libc (Notifier.fdstore run abi libc fds name poll)

  abbrev pub fdstore_remove : Text → M Bool
  fdstore_remove name = with_notifier run abi libc (Notifier.fdstore_remove run abi libc name)

  abbrev pub barrier : ℤ → M Bool
  barrier timeout_ms = with_notifier run abi libc (Notifier.barrier run abi libc timeout_ms)

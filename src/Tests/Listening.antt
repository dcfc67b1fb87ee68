-- ===== src/Tests/Listening.antt =====
-- Runs of the fake listener and of the watchdog task.
use micropython_systemd.Prelude.{
  ◌≡◌, refl, false, List, [], ◌∷◌, some, none, Bytes, codes, ℤ, pos, inr, arith, length, ltb,
  if◌then◌else◌,
}
use micropython_systemd.Errors.{ok, err, runtime_error}
use micropython_systemd.World.{World, M, Libc, poll, recvmsg, record_call, close, getpid}
use micropython_systemd.World.Environment
use micropython_systemd.Utf8
use micropython_systemd.Address.{encode_unix_address}
use micropython_systemd.Datagram.{Datagram}
use micropython_systemd.Native.Struct.{Abi}
use micropython_systemd.Native.Ancillary.{scm_rights}
use micropython_systemd.Native.Receiving.RoundTrip.{delivery}
use micropython_systemd.Listener.{FakeNotifyListener, receive}
use micropython_systemd.Listener.Queued.{receive-delivery}
use micropython_systemd.Notifier.Sending.{socket_call}
use micropython_systemd.Watchdog.{watchdog_period_ms, watchdog_enabled}
use micropython_systemd.Text.{int_of_text}
use micropython_systemd.Watchdog.Task.{watchdog_loop}
use micropython_systemd.Watchdog.Task.Pings.{pinged, watchdog_loop-pinged}
use micropython_systemd.Tests.{plain, seven}

abbrev little : Abi
little = record { word = 8; big_endian = false }

abbrev payload : Bytes
payload = codes "FDSTORE=1\n"

abbrev fds : List ℤ
fds = pos 5 ∷ pos 9 ∷ []

-- One message waits.
abbrev kernel : Libc
kernel t (poll fd mask timeout) =
    if ltb (length t) 2
    then record { ret = pos 1; errno = 0; out = 1 ∷ [] }
    else record { ret = pos 0; errno = 0; out = [] }
kernel t (recvmsg fd bufsize ctlsize flags) =
    delivery little bufsize ctlsize payload (scm_rights little fds)
kernel t c = seven t c

abbrev listener : FakeNotifyListener
listener = record {
  address = codes "@test";
  max_fds = 2;
  bufsize = 16;
  sock = record { fd = pos 7; peer = none };
}

abbrev pub before : World
before = record { env = []; trace = [] }

abbrev stored : Datagram
stored = record { contents = payload; fds = fds }

receive-delivery_example : (receive little kernel listener (pos 2000) before).0 ≡ ok (some stored)
receive-delivery_example =
    receive-delivery little kernel listener (pos 2000) 1 1 0 payload fds before (inr refl) refl
      (omega arith) (omega arith) (omega arith) (omega arith) refl refl

abbrev under_systemd : World
under_systemd = record {
  env =
      ("NOTIFY_SOCKET", codes "/n")
      ∷ ("WATCHDOG_USEC", codes "3000000")
      ∷ ("WATCHDOG_PID", codes "7")
      ∷ [];
  trace = [];
}

-- The process id is asked for, since WATCHDOG_PID is set.
abbrev asked_pid : World
asked_pid = record_call seven getpid under_systemd

abbrev dozing : ℤ → M (Unit {0})
dozing ms w = (ok tt, w)

watchdog_loop-pinged_example :
    watchdog_loop plain little seven dozing runtime_error none
      (pos 2)
      4
      (record { notifier = none; world = under_systemd })
    ≡ (
      err
          (pinged little seven runtime_error
            (codes "/n")
            (pos 7)
            4
            (record_call seven socket_call asked_pid)).0,
      record {
        notifier = none;
        world =
            record_call seven
              (close (pos 7))
              (pinged little seven runtime_error
                (codes "/n")
                (pos 7)
                4
                (record_call seven socket_call asked_pid)).1;
      },
    )
watchdog_loop-pinged_example =
    watchdog_loop-pinged plain little seven dozing runtime_error (λ ms w. refl) none (pos 2)
      (pos 1500) (pos 3000000) 4 under_systemd asked_pid {c = b'/'} {a = codes "n"}
      {sun = codes "/n"} (unfold watchdog_enabled Environment.lookup int_of_text in refl) refl
      (unfold watchdog_period_ms in refl) (unfold Environment.lookup in refl)
      (unfold encode_unix_address Utf8.encode in refl) refl

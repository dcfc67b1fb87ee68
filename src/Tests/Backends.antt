-- ===== src/Tests/Backends.antt =====
-- Runs of the back end for CPython, and of the memfd of a large journal entry.
use micropython_systemd.Prelude.{
  ◌≡◌, refl, true, false, List, [], ◌∷◌, some, none, codes, ℤ, pos, ◌+◌,
}
use micropython_systemd.Errors.{ok, value_error, bad_signal}
use micropython_systemd.Exec.{Exec}
use micropython_systemd.World.{World}
use micropython_systemd.Native.Struct.{Abi}
use micropython_systemd.Native.Ancillary.{pack_ints}
use micropython_systemd.Native.Sockets
use micropython_systemd.Signals.{several, shutdown_signals, wait_for_signals}
use micropython_systemd.Cpython.Signals.{State as LoopState, Loop, new_source, loop_backend}
use micropython_systemd.Cpython.Signals.Handlers.{handlers-wait_for_signals}
use micropython_systemd.Cpython.{Os, Process, Answer, Ancillary}
use micropython_systemd.Cpython.Sockets.{UnixDatagram, all_ints, rights, receive, send_with_fds}
use micropython_systemd.Cpython.Sockets.RoundTrip.{receive-rights, Agree, send_with_fds-Agree}
use micropython_systemd.Journal.Writer.{State as WriterState}
use micropython_systemd.Tests.{seven}

abbrev pub little : Abi
little = record { word = 8; big_endian = false }

-- Removing a handler always raises a ValueError.
abbrev loop : Loop
loop = record {
  running = true;
  refusal = λ hs n. none;
  complaint = λ hs n. some (value_error bad_signal);
}

abbrev idle : LoopState
idle = record { source = new_source []; handlers = pos 10 ∷ [] }

abbrev passing : Exec LoopState (Unit {0})
passing s = (ok tt, s)

handlers-wait_for_signals_example :
    (wait_for_signals
      (loop_backend loop passing)
      (λ ms. passing)
      3
      (several shutdown_signals)
      (pos 200)
      idle).1.handlers
    ≡ pos 10 ∷ []
handlers-wait_for_signals_example =
    handlers-wait_for_signals loop (pos 10 ∷ []) passing (λ ms. passing) (λ hs n. refl)
      (λ s. (refl, refl, refl)) (λ ms s. (refl, refl, refl)) 3 (several shutdown_signals) (pos 200)
      idle refl ((refl, λ hs. refl), ((refl, λ hs. refl), tt))

abbrev two_fds : List ℤ
two_fds = pos 5 ∷ pos 9 ∷ []

abbrev two_rights : List Ancillary
two_rights = record { level = 1; kind = 1; contents = pack_ints little two_fds } ∷ []

-- A message with credentials before the descriptors.
abbrev answer : Answer
answer = record {
  number = pos 0;
  second = pos 0;
  flag = false;
  contents = codes "FDSTORE=1\n";
  ancillary = record { level = 1; kind = 2; contents = [] } ∷ two_rights;
}

abbrev answering : Os
answering h r = ok answer

abbrev process : Process
process = record { env = []; history = [] }

abbrev datagram : UnixDatagram
datagram = record { sock = pos 3; peer = none }

receive-rights_example :
    (receive little (λ n. n + 16) answering datagram 64 2 process).0
    ≡ ok (codes "FDSTORE=1\n", two_fds)
receive-rights_example =
    receive-rights little (λ n. n + 16) answering datagram 64 1
      (record { level = 1; kind = 2; contents = [] } ∷ []) two_rights [] two_fds process answer
      (unfold rights all_ints in refl) (refl, tt) tt refl refl

abbrev start : World
start = record { env = []; trace = [] }

send_with_fds-Agree_example :
    Agree little
      (λ n. n + 16)
      seven
      answering
      (pos 4)
      (pos 3)
      (codes "x")
      start
      process
      (some (codes "/n"))
      two_fds
      (Sockets.send_with_fds little seven
        (record { fd = pos 4; peer = Sockets.peer_address little seven (some (codes "/n")) })
        (codes "x")
        two_fds
        start)
      (send_with_fds little
        (λ n. n + 16)
        answering
        (record { sock = pos 3; peer = some (codes "/n") })
        (codes "x")
        two_fds
        process)
send_with_fds-Agree_example =
    send_with_fds-Agree little (λ n. n + 16) seven answering (pos 4) (pos 3) (codes "x") start
      process (some (codes "/n")) two_fds

abbrev journal : WriterState
journal = record { writer = record { sun_path = codes "/j"; sock = none }; world = start }

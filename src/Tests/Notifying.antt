-- ===== src/Tests/Notifying.antt =====
-- Runs of the Notifier of daemon.py.
use micropython_systemd.Prelude.{◌≡◌, refl, true, List, [], ◌∷◌, Text, Bytes, codes, pos}
use micropython_systemd.World.{World, Libc, calls, record_call, close}
use micropython_systemd.World.Environment
use micropython_systemd.Utf8
use micropython_systemd.Utf8.{Chars, raw}
use micropython_systemd.Address.{encode_unix_address}
use micropython_systemd.Payload.{build_payload}
use micropython_systemd.Native.Struct.{Abi, unpack_int}
use micropython_systemd.Notifier.{notify, barrier_begin, with_notifier}
use micropython_systemd.Notifier.Sending.{sent, socket_call, send_call, holding, notify_lem}
use micropython_systemd.Text
use micropython_systemd.Notifier.Barrier.{pipe_call, barrier_call, calls-barrier_begin}
use micropython_systemd.Tests.{plain, seven}

abbrev pub narrow : Abi
narrow = record { word = 4; big_endian = true }

abbrev pub silent : World
silent = record { env = []; trace = [] }

abbrev pub notify_path : Text
notify_path = codes "/run/notify"

abbrev pub under_systemd : World
under_systemd = record { env = ("NOTIFY_SOCKET", notify_path) ∷ []; trace = [] }

abbrev ready_state : List Chars
ready_state = raw (codes "READY=1") ∷ []

abbrev ready_payload : Bytes
ready_payload = codes "READY=1\n"

notify_lem_example :
    with_notifier plain narrow seven (notify plain narrow seven ready_state []) under_systemd ≡ (
      sent (record { ret = pos 7; errno = 0; out = [] }),
      record_call seven (close (pos 7)) (
          record_call seven
            (send_call narrow (pos 7) ready_payload notify_path)
            (record_call seven socket_call under_systemd)),
    )
notify_lem_example =
    notify_lem plain narrow seven ready_state [] under_systemd {c = b'/'} {a = codes "run/notify"}
      {sun = notify_path} (unfold Environment.lookup in refl)
      (unfold encode_unix_address Utf8.encode in refl)
      (unfold build_payload Utf8.encode Utf8.decode Text.sorted Text.strip Text.join in refl) refl

-- A libc that also gives the pair of descriptors 5 and 6.
abbrev pub pair : Libc
pair t c = record { ret = pos 0; errno = 0; out = 0 ∷ 0 ∷ 0 ∷ 5 ∷ 0 ∷ 0 ∷ 0 ∷ 6 ∷ [] }

calls-barrier_begin_example :
    calls
      (barrier_begin plain narrow pair
        (holding narrow pair notify_path (pos 4) silent)).1.world.trace
    ≡ close (pos 6) ∷ barrier_call narrow (pos 4) notify_path (pos 6) ∷ pipe_call ∷ []
unfolding unpack_int micropython_systemd.Native.Struct.unpack_unsigned
    micropython_systemd.Native.Struct.le_value
calls-barrier_begin_example = calls-barrier_begin plain narrow pair notify_path (pos 4) silent refl

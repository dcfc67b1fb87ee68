-- ===== src/Tests/Owning.antt =====
-- Runs of a Notifier and of the shared journal writer, for the descriptors that they own.
use micropython_systemd.Prelude.{
  ◌≡◌, ◌≤◌, inl, refl, sym, ap, ◌∙◌, arith, ℕ, List, [], ◌∷◌, ◌++◌, true, none, codes, pos, negsuc,
  Bytes, length,
}
use micropython_systemd.Errors.{Result, ok, err}
use micropython_systemd.World.{Libc, sendto}
use micropython_systemd.Utf8
use micropython_systemd.Text
use micropython_systemd.Payload.{str}
use micropython_systemd.Journal
use micropython_systemd.Journal.{Entry, mapping, encode_fields}
use micropython_systemd.Journal.Shared.{Shared}
use micropython_systemd.Journal.Shared.Requests
use micropython_systemd.Journal.Shared.Descriptors.{held_by, called-Accounted}
use micropython_systemd.Journal.Shared.Requests.{called}
use micropython_systemd.Journal.Shared.Log.{journald_path, log, AllEnd, received-called}
use micropython_systemd.Journal.Writer.Received.{received}
use micropython_systemd.Notifier.{State, at_path, with_notifier}
use micropython_systemd.Notifier.Descriptors.Session.{
  Use, Request, asks, begins_barrier, ready, barrier, barrier_finish, send_raw, close_socket, used,
  in_turn, used-Accounted, with_notifier-Accounted,
}
use micropython_systemd.Descriptors.{Accounted}
use micropython_systemd.Descriptors.Sockets.{owned}
use micropython_systemd.Tests.{plain}
use micropython_systemd.Utf8.{raw}
use micropython_systemd.Tests.Notifying.{narrow, notify_path, under_systemd, silent, pair}

abbrev fresh : State
fresh = record { notifier = at_path notify_path; world = silent }

abbrev uses : List Use
uses =
    asks (ready none)
    ∷ begins_barrier
    ∷ asks (barrier_finish (pos 7) (pos 100))
    ∷ asks close_socket
    ∷ asks (send_raw (raw (codes "READY=1")) (pos 5 ∷ []))
    ∷ begins_barrier
    ∷ []

used-Accounted_example : Accounted narrow [] [] (used plain narrow pair uses fresh).1.world.trace (
    (used plain narrow pair uses fresh).0
    ++ owned (used plain narrow pair uses fresh).1.notifier.sock)
used-Accounted_example = used-Accounted plain narrow pair (λ t fd. refl) uses fresh

abbrev requests : List Request
requests = ready none ∷ barrier (pos 100) ∷ []

with_notifier-Accounted_example :
    Accounted narrow [] []
      (with_notifier plain narrow pair (in_turn plain narrow pair requests) under_systemd).1.trace
      []
with_notifier-Accounted_example =
    with_notifier-Accounted plain narrow pair (λ t fd. refl) requests under_systemd

-- A libc that refuses datagrams as too large.
abbrev crowded : Libc
crowded t (sendto fd contents flags name namelen) = record { ret = negsuc 0; errno = 90; out = [] }
crowded t c = record { ret = pos 7; errno = 0; out = [] }

abbrev entry : Entry
entry = mapping ((codes "A", str (codes "b")) ∷ [])

abbrev nothing_shared : Shared
nothing_shared = record { writer = none; world = silent }

abbrev length_of : Result Bytes → ℕ
length_of (ok body) = length body
length_of (err e) = 0

encode_fields-letter : encode_fields plain entry ≡ ok (codes "A=b\n")
unfolding encode_fields Journal.items Text.sorted micropython_systemd.Payload.get_item
    Journal.encode_field Journal.check_field_name Text.upper Journal.as_bytes Utf8.encode
encode_fields-letter = refl

entry-fits : (body : Bytes) → encode_fields plain entry ≡ ok body → length body ≤ 10
entry-fits body h = omega (arith, ap length_of (sym encode_fields-letter ∙ h))

called-Accounted_example :
    Accounted narrow [] []
      (called plain narrow crowded true 10
        (Requests.send_assembled entry ∷ [])
        nothing_shared).world.trace
      (held_by
        (called plain narrow crowded true 10
          (Requests.send_assembled entry ∷ [])
          nothing_shared).writer)
called-Accounted_example =
    called-Accounted plain narrow crowded true 10 (λ t fd b view h. cc)
      (Requests.send_assembled entry ∷ []) nothing_shared (entry-fits, tt)

received-called_example :
    (received narrow journald_path
        (called plain narrow crowded true 10
          (Requests.send_assembled entry ∷ Requests.close ∷ [])
          nothing_shared).world.trace
      ≡ []
        ++ log plain narrow crowded true 10
            (Requests.send_assembled entry ∷ Requests.close ∷ [])
            nothing_shared)
    × AllEnd plain narrow crowded true 10
        (Requests.send_assembled entry ∷ Requests.close ∷ [])
        nothing_shared
unfolding received
received-called_example =
    received-called plain narrow crowded true 10 (inl refl) (λ t fd. refl)
      (λ t name flags. omega arith) (λ t fd b view h. cc)
      (Requests.send_assembled entry ∷ Requests.close ∷ []) nothing_shared (entry-fits, (tt, tt)) tt

-- ===== src/Notifier/Log.antt =====
-- What the service manager gets of the calls of a Notifier of mpsystemd/daemon.py: an independent
-- reading of the trace, which makes a datagram of each sendto and sendmsg that succeeded and whose
-- address is that of the service manager's socket.
pub mod Messages
pub mod Requests
use micropython_systemd.Prelude.{
  Bool, true, false, List, [], ◌∷◌, ◌++◌, Option, none, some, Text, Bytes, codes, length, ℤ,
  is_negative, if◌then◌else◌,
}
use micropython_systemd.Errors.{Result, ok, err}
use micropython_systemd.Errors
use micropython_systemd.Exec.{pure, ◌>>=◌}
use micropython_systemd.World.{Libc, Trace, Call, Reply, sendto, sendmsg}
use micropython_systemd.Utf8.{Chars}
use micropython_systemd.Text.{Runtime}
use micropython_systemd.Datagram.{Datagram}
use micropython_systemd.Payload.{Fields, Value, str, int, build_payload, check_fdname}
use micropython_systemd.Native.{monotonic_us}
use micropython_systemd.Native.Struct.{Abi}
use micropython_systemd.Native.Sockets.Named.{is_addressed}
use micropython_systemd.Native.Ancillary.{parse_scm_rights}
use micropython_systemd.Notifier.{State, N, one, with_status, name_field, poll_field, pid_or_own}
use micropython_systemd.Notifier

-- The path is that of the socket of the service manager.
module _ (abi : Abi) (sun : Bytes) where
  abbrev pub grown : Call → Reply → List Datagram → List Datagram
  grown (sendto fd body flags name namelen) r datagrams =
      if is_negative r.ret
      then datagrams
      else if is_addressed abi sun name namelen
      then datagrams ++ record { contents = body; fds = [] } ∷ []
      else datagrams
  grown (sendmsg fd message flags) r datagrams =
      if is_negative r.ret
      then datagrams
      else if is_addressed abi sun message.name message.namelen
      then datagrams
        ++ record {
          contents = message.payload;
          fds = parse_scm_rights abi message.control (length message.control);
        }
          ∷ []
      else datagrams
  grown c r datagrams = datagrams

  -- The datagrams so far, in order.
  unfoldable pub delivered : Trace → List Datagram
  delivered [] = []
  delivered (e ∷ t) = grown e.call e.reply (delivered t)

-- A call of a method.
pub data Request : Type 0 where
  notify : List Chars → Fields → Request
  fdstore : List ℤ → Option Text → Option Bool → Request
  fdstore_remove : Text → Request
  reloading : Option Value → Request
  main_pid : Option ℤ → Request
  close : Request

-- The datagram of a call that returned True.
abbrev pub posted : Result Bool → Result Bytes → List ℤ → List Datagram
posted (ok true) (ok contents) fds = record { contents = contents; fds = fds } ∷ []
posted (ok true) (err e) fds = []
posted (ok false) payload fds = []
posted (err e) payload fds = []

module _ (run : Runtime) (abi : Abi) (libc : Libc) where
  -- The payload that a call sends, with the time or the process id that it reads, and its
  -- descriptors.
  abbrev pub payload_of : Request → State → Result Bytes
  payload_of (notify states fields) s = build_payload run states fields
  payload_of (fdstore fds name poll) s = Errors.◌>>=◌ (name_field run abi libc name) λ named.
      build_payload run [] ((codes "FDSTORE", one) ∷ (named ++ poll_field run abi libc poll))
  payload_of (fdstore_remove name) s =
      Errors.◌>>=◌ (check_fdname name)
        λ n. build_payload run [] ((codes "FDSTOREREMOVE", one) ∷ (codes "FDNAME", str n) ∷ [])
  payload_of (reloading status) s = Errors.◌>>=◌ (monotonic_us libc abi s.world).0 λ now.
      build_payload run []
        (with_status ((codes "RELOADING", one) ∷ (codes "MONOTONIC_USEC", int now) ∷ []) status)
  payload_of (main_pid pid) s =
      Errors.◌>>=◌ (pid_or_own run abi libc pid s.world).0
        λ p. build_payload run [] ((codes "MAINPID", int p) ∷ [])
  payload_of close s = ok []

  abbrev pub fds_of : Request → List ℤ
  fds_of (fdstore fds name poll) = fds
  fds_of q = []

  -- The outcome of a call; close returns nothing.
  abbrev pub answered : Request → N Bool
  answered (notify states fields) = Notifier.notify run abi libc states fields
  answered (fdstore fds name poll) = Notifier.fdstore run abi libc fds name poll
  answered (fdstore_remove name) = Notifier.fdstore_remove run abi libc name
  answered (reloading status) = Notifier.reloading run abi libc status
  answered (main_pid pid) = Notifier.main_pid run abi libc pid
  answered close = Notifier.close abi libc >>= λ u. pure false

  -- Calls whose exceptions are caught.
  unfoldable pub after_all : List Request → State → State
  after_all [] s = s
  after_all (q ∷ qs) s = after_all qs (answered q s).1

  -- The datagrams of the calls that returned True, in the order of the calls.
  unfoldable pub log : List Request → State → List Datagram
  log [] s = []
  log (q ∷ qs) s = posted (answered q s).0 (payload_of q s) (fds_of q) ++ log qs (answered q s).1

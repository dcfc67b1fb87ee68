-- ===== src/Notifier.antt =====
-- mpsystemd/daemon.py, class Notifier and the functions of the module that open one for a single
-- message. The proofs are in the children.
pub mod Sending
pub mod Barrier
pub mod Oneshot
pub mod Store
pub mod Log
pub mod Descriptors
use micropython_systemd.Prelude.{
  ℕ, Bool, true, false, List, [], ◌∷◌, ◌++◌, Option, none, some, Text, Bytes, codes, truthy, ℤ, pos,
  if◌then◌else◌,
}
use micropython_systemd.Errors.{Result, ok, err, value_error, no_descriptors, is_address_error}
use micropython_systemd.Exec.{Exec, pure, raise, lift, ◌>>=◌, ◌>>◌, finally, on_error}
use micropython_systemd.World.{World, M, Libc}
use micropython_systemd.Utf8.{Chars, raw, text, to_raw}
use micropython_systemd.Text.{Runtime}
use micropython_systemd.Address.{encode_unix_address}
use micropython_systemd.Payload.{Value, bool, int, str, Fields, build_payload, check_fdname}
use micropython_systemd.Native.{getenv, unsetenv, getpid, monotonic_us, pipe, close_fd, poll_fd}
use micropython_systemd.Native.Struct.{Abi}
use micropython_systemd.Native.Sockets.{
  UnixDatagram, open_datagram, send, send_with_fds, close_datagram,
}

pub record Notifier : Type 0 where
  pub sun_path : Option Bytes
  pub sock : Option UnixDatagram

-- A method runs on the object and the world.
pub record State : Type 0 where
  pub notifier : Notifier
  pub world : World

abbrev pub N {ℓ} : Type ℓ → Type ℓ
N A = Exec State A

-- A call that does not touch the object.
abbrev pub on_world {ℓ} : {A : Type ℓ} → M A → N A
on_world m s = ((m s.world).0, record s { world = (m s.world).1 })

abbrev pub put_sock : Option UnixDatagram → N (Unit {0})
put_sock sock s = (ok tt, record s { notifier = record s.notifier { sock = sock } })

abbrev pub at_path : Bytes → Notifier
at_path sun_path = record { sun_path = some sun_path; sock = none }

abbrev pub with_path : Result Bytes → Result Notifier
with_path (ok sun_path) = ok (at_path sun_path)
with_path (err e) = err e

-- An empty address counts as none.
abbrev pub usable : Option Text → Result Notifier
usable none = ok (record { sun_path = none; sock = none })
usable (some []) = ok (record { sun_path = none; sock = none })
usable (some (c ∷ s)) = with_path (encode_unix_address (text (c ∷ s)))

abbrev pub given : Option Text → M (Option Text)
given none = getenv "NOTIFY_SOCKET"
given (some address) = pure (some address)

-- Notifier(address)
unfoldable pub new_notifier : Option Text → M Notifier
new_notifier address = do a ← given address; lift (usable a)

-- self._sun_path is not None
abbrev pub available : Notifier → Bool
available n = elim n.sun_path [ none ↦ false | some p ↦ true ]

module _ (abi : Abi) (libc : Libc) where
  -- The socket of the object, opened and kept where there is none.
  pub ensure_sock : Bytes → Option UnixDatagram → N UnixDatagram
  ensure_sock sun_path none = do
    sock ← on_world (open_datagram abi libc (some sun_path))
    put_sock (some sock)
    pure sock
  ensure_sock sun_path (some sock) = pure sock

  -- The two ways to send.
  pub deliver : UnixDatagram → Bytes → List ℤ → N ℤ
  deliver sock contents [] = on_world (send abi libc sock contents)
  deliver sock contents (f ∷ fds) = on_world (send_with_fds abi libc sock contents (f ∷ fds))

  pub send_at : Option Bytes → Chars → List ℤ → N Bool
  unfolding ensure_sock deliver
  send_at none payload fds = pure false
  send_at (some sun_path) payload fds = do
    contents ← lift (to_raw payload)
    sock ← λ s. ensure_sock sun_path s.notifier.sock s
    deliver sock contents fds
    pure true

  unfoldable pub send_raw : Chars → List ℤ → N Bool
  unfolding send_at
  send_raw payload fds s = send_at s.notifier.sun_path payload fds s

  abbrev pub close_sock : Option UnixDatagram → N (Unit {0})
  close_sock none = pure tt
  close_sock (some sock) = do on_world (close_datagram abi libc sock); put_sock none

  -- notifier.close()
  unfoldable pub close : N (Unit {0})
  close s = close_sock s.notifier.sock s

-- The optional STATUS field behind others.
abbrev pub with_status : Fields → Option Value → Fields
with_status fields none = fields
with_status fields (some status) = fields ++ (codes "STATUS", status) ∷ []

abbrev pub one : Value
one = int (pos 1)

module _ (run : Runtime) (abi : Abi) (libc : Libc) where
  -- notifier.notify(*states, **fields)
  unfoldable pub notify : List Chars → Fields → N Bool
  notify states fields = do
    payload ← lift (build_payload run states fields)
    send_raw abi libc (raw payload) []

  abbrev pub ready : Option Value → N Bool
  ready status = notify [] (with_status ((codes "READY", one) ∷ []) status)

  abbrev pub stopping : Option Value → N Bool
  stopping status = notify [] (with_status ((codes "STOPPING", one) ∷ []) status)

  abbrev pub reloading : Option Value → N Bool
  reloading status = do
    now ← on_world (monotonic_us libc abi)
    notify []
        (with_status ((codes "RELOADING", one) ∷ (codes "MONOTONIC_USEC", int now) ∷ []) status)

  abbrev pub status : Value → N Bool
  status t = notify [] ((codes "STATUS", t) ∷ [])

  -- The argument of these is already an int.
  abbrev pub errno : ℤ → N Bool
  errno value = notify [] ((codes "ERRNO", int value) ∷ [])

  abbrev pub pid_or_own : Option ℤ → M ℤ
  pid_or_own none = getpid libc
  pid_or_own (some pid) = pure pid

  abbrev pub main_pid : Option ℤ → N Bool
  main_pid pid = do p ← on_world (pid_or_own pid); notify [] ((codes "MAINPID", int p) ∷ [])

  abbrev pub extend_timeout : ℤ → N Bool
  extend_timeout usec = notify [] ((codes "EXTEND_TIMEOUT_USEC", int usec) ∷ [])

  abbrev pub watchdog_ping : N Bool
  watchdog_ping = notify [] ((codes "WATCHDOG", one) ∷ [])

  abbrev pub watchdog_trigger : N Bool
  watchdog_trigger = notify [] ((codes "WATCHDOG", str (codes "trigger")) ∷ [])

  abbrev pub name_field : Option Text → Result Fields
  name_field none = ok []
  name_field (some name) = elim (check_fdname name) [
    | ok n ↦ ok ((codes "FDNAME", str n) ∷ [])
    | err e ↦ err e
  ]

  abbrev pub poll_field : Option Bool → Fields
  poll_field none = []
  poll_field (some poll) = (codes "FDPOLL", bool poll) ∷ []

  -- A single descriptor is a list of one.
  unfoldable pub fdstore : List ℤ → Option Text → Option Bool → N Bool
  fdstore [] name poll = raise (value_error no_descriptors)
  fdstore (f ∷ fds) name poll = do
    named ← lift (name_field name)
    payload ← lift (build_payload run [] ((codes "FDSTORE", one) ∷ (named ++ poll_field poll)))
    send_raw abi libc (raw payload) (f ∷ fds)

  unfoldable pub fdstore_remove : Text → N Bool
  fdstore_remove name = do
    n ← lift (check_fdname name)
    notify [] ((codes "FDSTOREREMOVE", one) ∷ (codes "FDNAME", str n) ∷ [])

  pub begin_at : Option Bytes → N (Option ℤ)
  begin_at none = pure none
  begin_at (some sun_path) = do
    ends ← on_world (pipe libc abi)
    finally
        (on_error (send_raw abi libc (raw (codes "BARRIER=1\n")) (ends.1 ∷ []))
          (on_world (close_fd libc ends.0)))
        (on_world (close_fd libc ends.1))
    pure (some ends.0)

  unfoldable pub barrier_begin : N (Option ℤ)
  unfolding begin_at
  barrier_begin s = begin_at s.notifier.sun_path s

  -- POLLIN | POLLHUP
  abbrev pub barrier_events : ℕ
  barrier_events = 0x11

  abbrev pub barrier_finish : ℤ → ℤ → N Bool
  barrier_finish read_fd timeout_ms = do
    events ← on_world (poll_fd libc read_fd barrier_events timeout_ms)
    pure (truthy events)

  pub finish_barrier : ℤ → Option ℤ → N Bool
  finish_barrier timeout_ms none = pure false
  finish_barrier timeout_ms (some read_fd) =
      finally (barrier_finish read_fd timeout_ms) (on_world (close_fd libc read_fd))

  unfoldable pub barrier : ℤ → N Bool
  unfolding finish_barrier barrier_begin
  barrier timeout_ms = do read_fd ← barrier_begin; finish_barrier timeout_ms read_fd

  -- with Notifier() as notifier: return body(notifier)
  unfoldable pub with_notifier {ℓ} : {A : Type ℓ} → N A → M A
  with_notifier body = do
    n ← new_notifier none
    λ w.
        let (r, s) = finally body (close abi libc) (record { notifier = n; world = w }) in
        (r, s.world)

-- except AddressError
abbrev pub unless_address_error : Result Bytes → Result Bool
unless_address_error (ok b) = ok true
unless_address_error (err e) = if is_address_error e then ok false else err e

abbrev pub can_notify : Option Text → Result Bool
can_notify none = ok false
can_notify (some []) = ok false
can_notify (some (c ∷ s)) = unless_address_error (encode_unix_address (text (c ∷ s)))

unfoldable pub notify_available : M Bool
notify_available = do address ← getenv "NOTIFY_SOCKET"; lift (can_notify address)

abbrev pub unset_notify_environment : M (Unit {0})
unset_notify_environment = unsetenv "NOTIFY_SOCKET"

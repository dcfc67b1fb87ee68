-- ===== src/Journal/Writer.antt =====
-- mpsystemd/journal.py, the class JournalWriter. Its methods take and give back the object beside
-- the world; sending a large entry through a memfd takes fuel, and `none` says that it ran out.
pub mod Delivery
pub mod Fallback
pub mod Received
pub mod Descriptors
use micropython_systemd.Prelude.{
  ℕ, Bool, true, false, ◌||◌, Option, none, some, List, [], ◌∷◌, ◌++◌, Text, Bytes, codes, list_eq,
  ℤ, pos, ◌==◌, if◌then◌else◌,
}
use micropython_systemd.Errors.{Error, Result, ok, err, os_error}
use micropython_systemd.Exec.{Exec, pure, raise, lift, ◌>>=◌, ◌>>◌, finally}
use micropython_systemd.World.{World, M, Libc}
use micropython_systemd.Utf8.{Chars}
use micropython_systemd.Text.{Runtime}
use micropython_systemd.Address.{encode_unix_address}
use micropython_systemd.Payload.{Fields, Value, str, int}
use micropython_systemd.Journal.{Entry, mapping, encode_fields}
use micropython_systemd.Native.{close_fd}
use micropython_systemd.Native.Struct.{Abi}
use micropython_systemd.Native.Sockets.{
  UnixDatagram, open_datagram, send, send_with_fds, close_datagram,
}
use micropython_systemd.Native.Memfd.{memfd_sealed}

pub record JournalWriter : Type 0 where
  pub sun_path : Bytes
  pub sock : Option UnixDatagram

pub record State : Type 0 where
  pub writer : JournalWriter
  pub world : World

abbrev pub W {ℓ} : Type ℓ → Type ℓ
W A = Exec State A

abbrev pub on_world {ℓ} : {A : Type ℓ} → M A → W A
on_world m s = let (r, w) = m s.world in (r, record s { world = w })

-- JournalWriter(address)
unfoldable pub new_writer : Chars → Result JournalWriter
new_writer address = elim (encode_unix_address address) [
  | ok sun_path ↦ ok (record { sun_path = sun_path; sock = none })
  | err e ↦ err e
]

-- self._sock = sock
abbrev pub put_sock : Option UnixDatagram → W (Unit {0})
put_sock sock s = (ok tt, record s { writer = record s.writer { sock = sock } })

-- exc.args[0] in (_EMSGSIZE, _ENOBUFS)
abbrev pub is_too_large : Error → Bool
is_too_large (os_error errno) = errno == 90 || errno == 105
is_too_large _ = false

module _ (abi : Abi) (libc : Libc) (has_memfd : Bool) (fuel : ℕ) where
  abbrev pub opened : Option UnixDatagram → W UnixDatagram
  opened (some sock) = pure sock
  opened none = λ s.
      (do
        sock ← on_world (open_datagram abi libc (some s.writer.sun_path))
        put_sock (some sock)
        pure sock)
        s

  -- self._socket()
  abbrev pub get_socket : W UnixDatagram
  get_socket s = opened s.writer.sock s

  abbrev pub send_memfd : UnixDatagram → ℤ → W (Unit {0})
  send_memfd sock fd = on_world (do send_with_fds abi libc sock [] (fd ∷ []); pure tt)

  abbrev pub pass_memfd : UnixDatagram → Option ℤ → W (Option Bool)
  pass_memfd sock none = pure none
  pass_memfd sock (some fd) = do
    finally (send_memfd sock fd) (on_world (close_fd libc fd))
    pure (some true)

  -- What follows the attempt to send the entry as a datagram.
  abbrev pub fall_back : UnixDatagram → Bytes → Result ℤ → W (Option Bool)
  fall_back sock body (ok n) = pure (some true)
  fall_back sock body (err e) =
      if is_too_large e
      then on_world (memfd_sealed libc has_memfd fuel (codes "mpsystemd-journal") body)
        >>= pass_memfd sock
      else raise e

  unfoldable pub send_raw : Bytes → W (Option Bool)
  send_raw body = do
    sock ← get_socket
    λ s. let (r, t) = on_world (send abi libc sock body) s in fall_back sock body r t

  unfoldable pub send_fields : Runtime → Entry → W (Option Bool)
  send_fields run fields = do body ← lift (encode_fields run fields); send_raw body

  abbrev pub close_sock : Option UnixDatagram → W (Unit {0})
  close_sock none = pure tt
  close_sock (some sock) = do on_world (close_datagram abi libc sock); put_sock none

  -- writer.close()
  unfoldable pub close : W (Unit {0})
  close s = close_sock s.writer.sock s

-- entry[name] = value, which keeps the place of a key that is there.
unfoldable pub put_item : Text → Value → Fields → Fields
put_item name v [] = (name, v) ∷ []
put_item name v ((k, u) ∷ fields) =
    let rest = put_item name v fields in if list_eq k name then (k, v) ∷ fields else (k, u) ∷ rest

abbrev pub put_given : Text → Option Value → Fields → Fields
put_given name none fields = fields
put_given name (some v) fields = put_item name v fields

module _ (run : Runtime) (abi : Abi) (libc : Libc) (has_memfd : Bool) (fuel : ℕ) where
  -- writer.send(message, priority, **fields), where the priority is an int.
  unfoldable pub send_entry : Option Value → Option ℤ → Fields → W (Option Bool)
  unfolding put_item
  send_entry message none fields =
      send_fields abi libc has_memfd fuel run (mapping (put_given (codes "MESSAGE") message fields))
  send_entry message (some priority) fields = send_fields abi libc has_memfd fuel run (
      mapping
        (put_item (codes "PRIORITY") (int priority) (put_given (codes "MESSAGE") message fields)))

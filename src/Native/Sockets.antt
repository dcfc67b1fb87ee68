-- ===== src/Native/Sockets.antt =====
-- mpsystemd/_impl_mp.py: `_sockaddr_un` and the class UnixDatagram.
pub mod Named
use micropython_systemd.Prelude.{
  ℕ, ◌+◌, List, [], ◌∷◌, ◌++◌, Option, none, some, Bytes, length, ltb, is_negative, if◌then◌else◌,
  ℤ, negsuc,
}
use micropython_systemd.Errors.{systemd_error, value_error, no_peer, too_many}
use micropython_systemd.Exec.{pure, raise, ◌>>=◌, ◌>>◌}
use micropython_systemd.World.{M, Libc, socket, bind, sendto, sendmsg, close, check, call_ignored}
use micropython_systemd.Native.Struct.{Abi, pack_unsigned}
use micropython_systemd.Native.Ancillary.{scm_rights, max_fds_per_message}

abbrev pub af_unix : ℕ
af_unix = 1

-- SOCK_DGRAM | SOCK_CLOEXEC
abbrev pub datagram_type : ℕ
datagram_type = 2 + 0o2000000

abbrev pub msg_nosignal : ℕ
msg_nosignal = 0x4000

abbrev pub sa_family_size : ℕ
sa_family_size = 2

-- The buffer, and the address length to report with it.
unfoldable pub sockaddr_un : Abi → Bytes → Bytes × ℕ
sockaddr_un abi sun_path = (
  pack_unsigned abi sa_family_size af_unix ++ (sun_path ++ 0 ∷ []),
  sa_family_size + length sun_path,
)

-- The address of the peer is a buffer and the length to report with it.
pub record UnixDatagram : Type 0 where
  pub fd : ℤ
  pub peer : Option (Bytes × ℕ)

-- A closed socket has the descriptor -1.
abbrev pub closed_fd : ℤ
closed_fd = negsuc 0

module _ (abi : Abi) (libc : Libc) where
  abbrev pub peer_address : Option Bytes → Option (Bytes × ℕ)
  peer_address none = none
  peer_address (some sun_path) = some (sockaddr_un abi sun_path)

  -- UnixDatagram(peer)
  unfoldable pub open_datagram : Option Bytes → M UnixDatagram
  open_datagram peer = do
    fd ← check libc (socket af_unix datagram_type 0)
    pure (record { fd = fd; peer = peer_address peer })

  abbrev pub send_to : ℤ → Option (Bytes × ℕ) → Bytes → M ℤ
  send_to fd none contents = raise (systemd_error no_peer)
  send_to fd (some (name, namelen)) contents =
      check libc (sendto fd contents msg_nosignal name namelen)

  -- sock.send(data)
  unfoldable pub send : UnixDatagram → Bytes → M ℤ
  send sock contents = send_to sock.fd sock.peer contents

  abbrev pub send_rights : ℤ → Option (Bytes × ℕ) → Bytes → List ℤ → M ℤ
  send_rights fd none contents fds = raise (systemd_error no_peer)
  send_rights fd (some (name, namelen)) contents [] = send_to fd (some (name, namelen)) contents
  send_rights fd (some (name, namelen)) contents (f ∷ fds) =
      if ltb max_fds_per_message (length (f ∷ fds))
      then raise (value_error too_many)
      else check libc (
          sendmsg fd
            (record {
              name = name;
              namelen = namelen;
              payload = contents;
              control = scm_rights abi (f ∷ fds);
            })
            msg_nosignal)

  -- sock.send_with_fds(data, fds)
  unfoldable pub send_with_fds : UnixDatagram → Bytes → List ℤ → M ℤ
  send_with_fds sock contents fds = send_rights sock.fd sock.peer contents fds

  -- sock.bind(sun_path)
  unfoldable pub bind_datagram : UnixDatagram → Bytes → M (Unit {0})
  bind_datagram sock sun_path = do
    let (name, namelen) = sockaddr_un abi sun_path
    check libc (bind sock.fd name namelen)
    pure tt

  -- sock.close(), which leaves the object closed; what libc's close returns is ignored.
  unfoldable pub close_datagram : UnixDatagram → M UnixDatagram
  close_datagram sock =
      if is_negative sock.fd
      then pure sock
      else (do call_ignored libc (close sock.fd); pure (record sock { fd = closed_fd }))

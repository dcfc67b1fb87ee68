-- ===== src/Cpython/Sockets.antt =====
-- mpsystemd/_impl_cpy.py, the class UnixDatagram.
pub mod RoundTrip
use micropython_systemd.Prelude.{
  ℕ, zero, suc, ◌+◌, ◌*◌, ◌/◌, ◌==◌, ◌&&◌, List, [], ◌∷◌, ◌++◌, Option, none, some, Bytes, length,
  take, ltb, if◌then◌else◌, ℤ, pos, negsuc, ◌^◌, Bool, true,
}
use micropython_systemd.Errors.{
  Result, ok, err, struct_error, systemd_error, value_error, no_peer, too_many,
}
use micropython_systemd.Exec.{pure, lift, raise, ◌>>=◌, ◌>>◌}
use micropython_systemd.Native.Struct.{Abi, int_size}
use micropython_systemd.Native.Ancillary.{pack_ints, unpack_ints}
use micropython_systemd.Cpython.{
  P, Os, Ancillary, ask, ask_number, ask_nothing, socket, bind, sendto, sendmsg, recv, recvmsg,
  close_socket,
}

abbrev pub max_fds_per_message : ℕ
max_fds_per_message = 253

abbrev pub sol_socket : ℕ
sol_socket = 1

abbrev pub scm_rights : ℕ
scm_rights = 1

abbrev pub msg_cmsg_cloexec : ℕ
msg_cmsg_cloexec = 0x40000000

pub record UnixDatagram : Type 0 where
  pub sock : ℤ
  pub peer : Option Bytes

-- for level, kind, payload in ancdata: …
unfoldable pub fds_of : Abi → List Ancillary → List ℤ
fds_of abi [] = []
fds_of abi (m ∷ ancdata) =
    let rest = fds_of abi ancdata in
    let count = length m.contents / int_size in
    if m.level == sol_socket && m.kind == scm_rights
    then unpack_ints abi count (take (count * int_size) m.contents) ++ rest
    else rest

-- A number that struct.pack takes as an int of C.
abbrev pub is_int : ℤ → Bool
is_int (pos n) = ltb n (2 ^ 31)
is_int (negsuc n) = ltb n (2 ^ 31)

unfoldable pub all_ints : List ℤ → Bool
all_ints [] = true
all_ints (fd ∷ fds) = let rest = all_ints fds in is_int fd && rest

-- The one control message of some descriptors; struct.pack raises struct.error for one that is not
-- an int of C.
unfoldable pub rights : Abi → List ℤ → Result (List Ancillary)
rights abi fds =
    if all_ints fds
    then ok (record { level = sol_socket; kind = scm_rights; contents = pack_ints abi fds } ∷ [])
    else err struct_error

-- socket.CMSG_SPACE depends on the platform.
module _ (abi : Abi) (cmsg_space : ℕ → ℕ) (os : Os) where
  -- UnixDatagram(peer)
  unfoldable pub open_datagram : Option Bytes → P UnixDatagram
  open_datagram peer = do
    sock ← ask_number os (socket 1 2)
    pure (record { sock = sock; peer = peer })

  abbrev pub set_peer : Bytes → UnixDatagram → UnixDatagram
  set_peer sun_path d = record d { peer = some sun_path }

  unfoldable pub bind_datagram : UnixDatagram → Bytes → P (Unit {0})
  bind_datagram d sun_path = ask_nothing os (bind d.sock sun_path)

  abbrev pub send_to : ℤ → Option Bytes → Bytes → P ℤ
  send_to sock none contents = raise (systemd_error no_peer)
  send_to sock (some peer) contents = ask_number os (sendto sock contents peer)

  unfoldable pub send : UnixDatagram → Bytes → P ℤ
  send d contents = send_to d.sock d.peer contents

  abbrev pub send_rights : ℤ → Option Bytes → Bytes → List ℤ → P ℤ
  send_rights sock none contents fds = raise (systemd_error no_peer)
  send_rights sock (some peer) contents [] = send_to sock (some peer) contents
  send_rights sock (some peer) contents (f ∷ fds) =
      if ltb max_fds_per_message (length (f ∷ fds)) then raise (value_error too_many) else (do
        control ← lift (rights abi (f ∷ fds))
        ask_number os (sendmsg sock contents control 0 peer))

  unfoldable pub send_with_fds : UnixDatagram → Bytes → List ℤ → P ℤ
  send_with_fds d contents fds = send_rights d.sock d.peer contents fds

  unfoldable pub receive : UnixDatagram → ℕ → ℕ → P (Bytes × List ℤ)
  receive d bufsize zero = do a ← ask os (recv d.sock bufsize); pure (a.contents, [])
  receive d bufsize (suc n) = do
    a ← ask os (recvmsg d.sock bufsize (cmsg_space (suc n * int_size)) msg_cmsg_cloexec)
    pure (a.contents, fds_of abi a.ancillary)

  abbrev pub close_datagram : UnixDatagram → P (Unit {0})
  close_datagram d = ask_nothing os (close_socket d.sock)

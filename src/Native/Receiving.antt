-- ===== src/Native/Receiving.antt =====
-- mpsystemd/_impl_mp.py: recv of the class UnixDatagram.
pub mod RoundTrip
use micropython_systemd.Prelude.{
  ℕ, zero, suc, ◌+◌, ◌*◌, List, [], Bytes, take, drop, length, ℤ, to_ℕ, is_negative, if◌then◌else◌,
}
use micropython_systemd.Errors.{Result, ok, err, os_error}
use micropython_systemd.World.{M, Libc, Call, Reply, recv, recvmsg, record_call}
use micropython_systemd.Native.Struct.{Abi, int_size, unpack_word}
use micropython_systemd.Native.Ancillary.{cmsg_align, cmsg_hdr_size, parse_scm_rights}
use micropython_systemd.Native.Sockets.{UnixDatagram}

abbrev pub msg_cmsg_cloexec : ℕ
msg_cmsg_cloexec = 0x40000000

-- The size of the control buffer.
abbrev pub control_size : Abi → ℕ → ℕ
control_size abi max_fds = cmsg_hdr_size abi + cmsg_align abi (int_size * max_fds)

-- _check(call), then what `read` makes of the reply.
abbrev pub received : (Reply → Bytes × List ℤ) → Reply → Result (Bytes × List ℤ)
received read r = if is_negative r.ret then err (os_error r.errno) else ok (read r)

-- bytes(buf[:got]), []
abbrev pub plain_of : Reply → Bytes × List ℤ
plain_of r = (take (to_ℕ r.ret) r.out, [])

-- The three buffers of recvmsg, one after the other.
abbrev pub message_of : Abi → ℕ → ℕ → Reply → Bytes × List ℤ
message_of abi bufsize ctlsize r =
    let buf = take bufsize r.out in
    let control = take ctlsize (drop bufsize r.out) in
    let controllen = unpack_word abi (drop ctlsize (drop bufsize r.out)) in
    (take (to_ℕ r.ret) buf, parse_scm_rights abi control controllen)

module _ (abi : Abi) (libc : Libc) where
  -- sock.recv(bufsize, max_fds)
  unfoldable pub receive : UnixDatagram → ℕ → ℕ → M (Bytes × List ℤ)
  receive sock bufsize zero w =
      let c = recv sock.fd bufsize 0 in (received plain_of (libc w.trace c), record_call libc c w)
  receive sock bufsize (suc n) w =
      let size = control_size abi (suc n) in
      let c = recvmsg sock.fd bufsize size msg_cmsg_cloexec in
      (received (message_of abi bufsize size) (libc w.trace c), record_call libc c w)

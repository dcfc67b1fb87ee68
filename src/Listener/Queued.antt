-- ===== src/Listener/Queued.antt =====
-- What the listener of mpsystemd/testing.py receives of what was sent to it.
use micropython_systemd.Prelude.{
  ℕ, zero, suc, ◌≤◌, ◌<◌, ◌≡◌, refl, ap, ◌∙◌, List, [], ◌∷◌, ◌++◌, append-nil, append_assoc, arith,
  none, some, Bytes, length, All, ℤ, pos,
}
use micropython_systemd.Errors.{ok}
use micropython_systemd.World.{World, Libc, recvmsg, poll, record_call}
use micropython_systemd.Datagram.{Datagram}
use micropython_systemd.Native.Struct.{Abi, le_value}
use micropython_systemd.Native.Struct.Laws.{IsInt}
use micropython_systemd.Native.Ancillary.{scm_rights}
use micropython_systemd.Native.Ancillary.Layout.{IsAbi}
use micropython_systemd.Native.Receiving.{control_size, msg_cmsg_cloexec}
use micropython_systemd.Native.Receiving.RoundTrip.{delivery, receive-scm_rights}
use micropython_systemd.Listener.{
  FakeNotifyListener, pollin, timeout_for, receive, drain, receive_all,
}

module _ (abi : Abi) (libc : Libc) (listener : FakeNotifyListener) where
  -- A listener with room for the payload and the descriptors of a message, up to 253 ints on a word
  -- of 4 or 8 bytes, that polls its socket as readable, receives of what the kernel delivers of the
  -- message its whole payload and its descriptors in their order.
  pub receive-delivery :
      (timeout_ms : ℤ) (n k e : ℕ) (payload : Bytes) (fds : List ℤ) (w : World)
      → IsAbi abi
      → listener.max_fds ≡ suc n
      → length payload ≤ listener.bufsize
      → length fds ≤ suc n
      → length fds ≤ 253
      → All IsInt fds
      → libc w.trace (poll listener.sock.fd pollin timeout_ms)
        ≡ record { ret = pos k; errno = e; out = 1 ∷ [] }
      → libc
          (record_call libc (poll listener.sock.fd pollin timeout_ms) w).trace
          (recvmsg listener.sock.fd listener.bufsize (control_size abi (suc n)) msg_cmsg_cloexec)
        ≡ delivery abi listener.bufsize (control_size abi (suc n)) payload (scm_rights abi fds)
      → (receive abi libc listener timeout_ms w).0
        ≡ ok (some (record { contents = payload; fds = fds }))
  unfolding receive le_value
  receive-delivery timeout_ms n k e payload fds w is_abi room fits few bounded ints ready
        delivered =
      let c = poll listener.sock.fd pollin timeout_ms in
      let v : World = record w {
        trace =
            record { call = c; reply = record { ret = pos k; errno = e; out = 1 ∷ [] } } ∷ w.trace;
      } in
      rw
        (
          ready,
          room,
          receive-scm_rights abi fds is_abi libc listener.sock listener.bufsize n payload v fits few
              bounded ints (rw ready at delivered),
        )
        refl

  -- The datagrams that successive calls of receive return, up to the first that times out, where
  -- some were received before.
  pub data Arriving (timeout_ms : ℤ) : List Datagram → List Datagram → World → Type 0 where
    none_left :
        {received : List Datagram} {w : World}
        → (receive abi libc listener (timeout_for timeout_ms received) w).0 ≡ ok none
        → Arriving timeout_ms received [] w
    one_more :
        {received datagrams : List Datagram} {d : Datagram} {w : World}
        → (receive abi libc listener (timeout_for timeout_ms received) w).0 ≡ ok (some d)
        → Arriving timeout_ms
            (received ++ d ∷ [])
            datagrams
            (receive abi libc listener (timeout_for timeout_ms received) w).1
        → Arriving timeout_ms received (d ∷ datagrams) w

  drain-Arriving :
      (timeout_ms : ℤ) (rounds : ℕ) {received datagrams : List Datagram} {w : World}
      → Arriving timeout_ms received datagrams w
      → length datagrams < rounds
      → (drain abi libc listener timeout_ms rounds received w).0 ≡ ok (some (received ++ datagrams))
  unfolding drain
  drain-Arriving timeout_ms (suc rounds) {received} (none_left last) enough =
      rw (last, append-nil received) refl
  drain-Arriving timeout_ms (suc rounds) {received} (one_more {datagrams = ds} {d = d} first rest)
        enough =
      rw first (
        drain-Arriving timeout_ms rounds rest (omega (arith, enough))
        ∙ ap (λ ds'. ok (some ds')) (append_assoc received (d ∷ []) ds))
  drain-Arriving timeout_ms zero arriving enough = ground (arith, enough)

  -- receive_all, given more rounds than datagrams arrive, ends and returns all that successive
  -- calls of receive give until one times out, in their order, where the first call waits for the
  -- timeout and the others do not wait.
  pub receive_all-Arriving :
      (timeout_ms : ℤ) (rounds : ℕ) {datagrams : List Datagram} {w : World}
      → Arriving timeout_ms [] datagrams w
      → length datagrams < rounds
      → (receive_all abi libc listener timeout_ms rounds w).0 ≡ ok (some datagrams)
  unfolding receive_all
  receive_all-Arriving timeout_ms rounds arriving enough =
      drain-Arriving timeout_ms rounds arriving enough

-- ===== src/Listener.antt =====
-- mpsystemd/testing.py: the class FakeNotifyListener, and close_fds of the class Datagram.
pub mod Queued
use micropython_systemd.Prelude.{
  ℕ, zero, suc, ◌==◌, Bool, List, [], ◌∷◌, ◌++◌, reverse, Option, none, some, Text, Bytes, codes,
  if◌then◌else◌, ℤ, pos,
}
use micropython_systemd.Errors.{Result, ok, err}
use micropython_systemd.Exec.{Exec, pure, lift, ◌>>=◌, ◌>>◌}
use micropython_systemd.World.{World, M, Libc}
use micropython_systemd.Utf8.{text}
use micropython_systemd.Address.{encode_unix_address}
use micropython_systemd.Datagram.{Datagram}
use micropython_systemd.Native.{poll_fd, close_fd}
use micropython_systemd.Native.Struct.{Abi}
use micropython_systemd.Native.Sockets.{UnixDatagram, open_datagram, bind_datagram, close_datagram}
use micropython_systemd.Native.Receiving

abbrev pub pollin : ℕ
pollin = 1

pub record FakeNotifyListener : Type 0 where
  pub address : Text
  pub max_fds : ℕ
  pub bufsize : ℕ
  pub sock : UnixDatagram

-- The name of a listener that is given none ends in random hexadecimal digits.
abbrev pub address_of : Text → Option Text → Text
address_of suffix none = codes "@mpsystemd-test-" ++ suffix
address_of suffix (some address) = address

abbrev pub timeout_for : ℤ → List Datagram → ℤ
timeout_for timeout_ms [] = timeout_ms
timeout_for timeout_ms (d ∷ received) = pos 0

module _ (abi : Abi) (libc : Libc) where
  -- FakeNotifyListener(address, max_fds, bufsize)
  unfoldable pub new_listener : Text → Option Text → ℕ → ℕ → M FakeNotifyListener
  new_listener suffix address max_fds bufsize = do
    let name = address_of suffix address
    sock ← open_datagram abi libc none
    sun_path ← lift (encode_unix_address (text name))
    bind_datagram abi libc sock sun_path
    pure (record { address = name; max_fds = max_fds; bufsize = bufsize; sock = sock })

  -- What follows the poll.
  abbrev pub take_datagram : FakeNotifyListener → M (Option Datagram)
  take_datagram listener = do
    (contents, fds) ← Receiving.receive abi libc listener.sock listener.bufsize listener.max_fds
    pure (some (record { contents = contents; fds = fds }))

  unfoldable pub receive : FakeNotifyListener → ℤ → M (Option Datagram)
  receive listener timeout_ms = do
    events ← poll_fd libc listener.sock.fd pollin timeout_ms
    if events == 0 then pure none else take_datagram listener

  -- What follows a call of receive, with the datagrams so far.
  abbrev pub append_or :
      List Datagram
      → (List Datagram → M (Option (List Datagram)))
      → Option Datagram
      → M (Option (List Datagram))
  append_or received more none = pure (some received)
  append_or received more (some d) = more (received ++ d ∷ [])

  -- The loop of receive_all, for a number of rounds: `none` where they are not enough.
  unfoldable pub drain : FakeNotifyListener → ℤ → ℕ → List Datagram → M (Option (List Datagram))
  drain listener timeout_ms zero received = pure none
  drain listener timeout_ms (suc rounds) received = do
    datagram ← receive listener (timeout_for timeout_ms received)
    append_or received (drain listener timeout_ms rounds) datagram

  unfoldable pub receive_all : FakeNotifyListener → ℤ → ℕ → M (Option (List Datagram))
  receive_all listener timeout_ms rounds = drain listener timeout_ms rounds []

  -- listener.close()
  abbrev pub close_listener : FakeNotifyListener → M FakeNotifyListener
  close_listener listener = do
    sock ← close_datagram abi libc listener.sock
    pure (record listener { sock = sock })

module _ (libc : Libc) where
  -- The loop of close_fds, over the descriptors from the last to the first: each is taken off the
  -- list before it is closed.
  pub close_from : List ℤ → Exec (Datagram × World) (Unit {0})
  close_from [] s = (ok tt, s)
  close_from (fd ∷ fds) (d, w) =
      (do
        (λ (t : Datagram × World). let (r, v) = close_fd libc fd t.1 in (r, (t.0, v)))
        close_from fds)
        (record d { fds = reverse fds }, w)

  pub close_fds : Exec (Datagram × World) (Unit {0})
  close_fds (d, w) = close_from (reverse d.fds) (d, w)

-- ===== src/Platform.antt =====
-- mpsystemd/_platform.py: the names that the rest of the package takes from a back end, and the two
-- back ends. The other modules of the model name the functions of the back end for MicroPython;
-- what both have in common is in the child. SignalSource is the Backend of Signals.
pub mod Environment
use micropython_systemd.Prelude.{ℕ, Bool, Option, Text, Bytes, String, List, ℤ, true, false}
use micropython_systemd.Exec.{Exec}
use micropython_systemd.World.{World, Libc}
use micropython_systemd.Native
use micropython_systemd.Native.Struct.{Abi}
use micropython_systemd.Native.Ancillary
use micropython_systemd.Native.Memfd as NativeMemfd
use micropython_systemd.Native.Receiving
use micropython_systemd.Native.Sockets as NativeSockets
use micropython_systemd.Cpython.{Process, Os}
use micropython_systemd.Cpython
use micropython_systemd.Cpython.Memfd as CpythonMemfd
use micropython_systemd.Cpython.Sockets as CpythonSockets

-- `Datagram` is the class UnixDatagram.
pub record Primitives (S : Type 0) (Datagram : Type 0) : Type 0 where
  pub getenv : String → Exec S (Option Text)
  pub setenv : String → Text → Exec S (Unit {0})
  pub unsetenv : String → Exec S (Unit {0})
  pub getpid : Exec S ℤ
  pub monotonic_us : Exec S ℤ
  pub kill_pid : ℤ → ℤ → Exec S (Unit {0})
  pub pipe : Exec S (ℤ × ℤ)
  pub close_fd : ℤ → Exec S (Unit {0})
  pub read_fd : ℤ → ℕ → Exec S (Option Bytes)
  pub write_fd : ℤ → Bytes → Exec S ℤ
  pub dup_to : ℤ → ℤ → Exec S ℤ
  pub set_cloexec : ℤ → Exec S (Unit {0})
  pub clear_cloexec : ℤ → Exec S (Unit {0})
  pub is_cloexec : ℤ → Exec S Bool
  pub dup_above : ℤ → ℕ → Exec S ℤ
  pub seek : ℤ → ℤ → ℕ → Exec S ℤ
  pub seek_set : ℕ
  pub seek_end : ℕ
  pub memfd_sealed : Text → Bytes → Exec S (Option ℤ)
  pub open_datagram : Option Bytes → Exec S Datagram
  pub send : Datagram → Bytes → Exec S ℤ
  pub send_with_fds : Datagram → Bytes → List ℤ → Exec S ℤ
  pub receive : Datagram → ℕ → ℕ → Exec S (Bytes × List ℤ)
  pub max_fds_per_message : ℕ

-- _impl_mp, where the module ffi is there.
abbrev pub micropython : Abi → Libc → Bool → ℕ → Primitives World NativeSockets.UnixDatagram
micropython abi libc has_memfd fuel = record {
  getenv = Native.getenv;
  setenv = Native.setenv;
  unsetenv = Native.unsetenv;
  getpid = Native.getpid libc;
  monotonic_us = Native.monotonic_us libc abi;
  kill_pid = Native.kill_pid libc;
  pipe = Native.pipe libc abi;
  close_fd = Native.close_fd libc;
  read_fd = Native.read_fd libc;
  write_fd = Native.write_fd libc;
  dup_to = Native.dup_to libc;
  set_cloexec = Native.set_cloexec libc;
  clear_cloexec = Native.clear_cloexec libc;
  is_cloexec = Native.is_cloexec libc;
  dup_above = Native.dup_above libc;
  seek = Native.seek libc;
  seek_set = 0;
  seek_end = 2;
  memfd_sealed = NativeMemfd.memfd_sealed libc has_memfd fuel;
  open_datagram = NativeSockets.open_datagram abi libc;
  send = NativeSockets.send abi libc;
  send_with_fds = NativeSockets.send_with_fds abi libc;
  receive = Receiving.receive abi libc;
  max_fds_per_message = Ancillary.max_fds_per_message;
}

-- _impl_cpy, where it is missing.
abbrev pub cpython : Abi → (ℕ → ℕ) → Os → Bool → ℕ → Primitives Process CpythonSockets.UnixDatagram
cpython abi cmsg_space os has_memfd fuel = record {
  getenv = Cpython.getenv;
  setenv = Cpython.setenv;
  unsetenv = Cpython.unsetenv;
  getpid = Cpython.getpid_of os;
  monotonic_us = Cpython.monotonic_us os;
  kill_pid = Cpython.kill_pid os;
  pipe = Cpython.pipe_ends os;
  close_fd = Cpython.close_fd os;
  read_fd = Cpython.read_fd os;
  write_fd = Cpython.write_fd os;
  dup_to = Cpython.dup_to os;
  set_cloexec = Cpython.set_cloexec os;
  clear_cloexec = Cpython.clear_cloexec os;
  is_cloexec = Cpython.is_cloexec os;
  dup_above = Cpython.dup_above os;
  seek = Cpython.seek os;
  seek_set = 0;
  seek_end = 2;
  memfd_sealed = CpythonMemfd.memfd_sealed os has_memfd fuel;
  open_datagram = CpythonSockets.open_datagram abi cmsg_space os;
  send = CpythonSockets.send abi cmsg_space os;
  send_with_fds = CpythonSockets.send_with_fds abi cmsg_space os;
  receive = CpythonSockets.receive abi cmsg_space os;
  max_fds_per_message = CpythonSockets.max_fds_per_message;
}

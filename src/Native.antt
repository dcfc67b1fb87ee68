-- ===== src/Native.antt =====
-- mpsystemd/_impl_mp.py, the primitives on the process and its descriptors. `_platform` passes
-- these names on; this is the backend that it picks on MicroPython.
pub mod Signals
pub mod Memfd
pub mod Linking
pub mod Message
pub mod Struct
pub mod Ancillary
pub mod Sockets
pub mod Receiving
use micropython_systemd.Prelude.{
  ℕ, zero, suc, ◌+◌, ◌*◌, ◌/◌, ◌%◌, Bool, true, false, List, [], ◌∷◌, ◌++◌, Option, none, some,
  Text, Bytes, String, codes, length, drop, take, ltb, ◌==◌, ◌||◌, if◌then◌else◌, ℤ, floor_div,
  times, ◌+ℤ◌, pos, negsuc, is_negative, to_ℕ,
}
use micropython_systemd.Errors.{Result, ok, err, os_error}
use micropython_systemd.Exec.{pure, raise, ◌>>=◌, ◌>>◌}
use micropython_systemd.World.{
  World, M, Libc, Call, socket, close, pipe2, fcntl, dup2, clock_gettime, poll, kill, write, read,
  lseek, call_raw, check, check_out, Reply, Event,
}
use micropython_systemd.World
use micropython_systemd.World.Environment
use micropython_systemd.Native.Struct.{Abi, unpack_int, unpack_long, le_value}

abbrev pub o_cloexec : ℕ
o_cloexec = 0o2000000

abbrev pub f_dupfd : ℕ
f_dupfd = 0

abbrev pub f_getfd : ℕ
f_getfd = 1

abbrev pub f_setfd : ℕ
f_setfd = 2

abbrev pub fd_cloexec : ℕ
fd_cloexec = 1

abbrev pub clock_monotonic : ℕ
clock_monotonic = 1

-- os.getenv, os.putenv, os.unsetenv
abbrev pub getenv : String → M (Option Text)
getenv name w = (ok (Environment.lookup name w.env), w)

abbrev pub setenv : String → Text → M (Unit {0})
setenv name value w = (ok tt, record w { env = Environment.insert name value w.env })

abbrev pub unsetenv : String → M (Unit {0})
unsetenv name w = (ok tt, record w { env = Environment.erase name w.env })

module _ (libc : Libc) where
  abbrev pub getpid : M ℤ
  getpid = call_raw libc World.getpid

  abbrev pub close_fd : ℤ → M (Unit {0})
  close_fd fd = do check libc (close fd); pure tt

  abbrev pub set_cloexec : ℤ → M (Unit {0})
  set_cloexec fd = do check libc (fcntl fd f_setfd fd_cloexec); pure tt

  abbrev pub clear_cloexec : ℤ → M (Unit {0})
  clear_cloexec fd = do check libc (fcntl fd f_setfd 0); pure tt

  abbrev pub dup_above : ℤ → ℕ → M ℤ
  dup_above fd minfd = check libc (fcntl fd f_dupfd minfd)

  abbrev pub dup_to : ℤ → ℤ → M ℤ
  dup_to oldfd newfd = check libc (dup2 oldfd newfd)

  -- The pair of ints that pipe2 wrote.
  abbrev pub pipe : Abi → M (ℤ × ℤ)
  pipe abi = do
    buf ← check_out libc (pipe2 o_cloexec)
    pure (unpack_int abi buf, unpack_int abi (drop 4 buf))

  -- CLOCK_MONOTONIC in microseconds, from the two longs of a timespec.
  abbrev pub monotonic_us : Abi → M ℤ
  monotonic_us abi = do
    buf ← check_out libc (clock_gettime clock_monotonic)
    pure (
        times 1000000 (unpack_long abi buf) +ℤ floor_div (unpack_long abi (drop abi.word buf)) 1000)

  -- _platform.poll_fd: the events of the one descriptor, 0 when the wait times out. The output of
  -- the call is those events, and nothing where there are none.
  abbrev pub poll_fd : ℤ → ℕ → ℤ → M ℕ
  poll_fd fd mask timeout_ms = do
    events ← check_out libc (poll fd mask timeout_ms)
    pure (le_value events)

  abbrev pub kill_pid : ℤ → ℤ → M (Unit {0})
  kill_pid pid signo = do check libc (kill pid signo); pure tt

  abbrev pub write_fd : ℤ → Bytes → M ℤ
  write_fd fd contents = check libc (write fd contents)

  -- flags & FD_CLOEXEC
  abbrev pub is_cloexec : ℤ → M Bool
  is_cloexec fd = do flags ← check libc (fcntl fd f_getfd 0); pure (to_ℕ flags % 2 == fd_cloexec)

  abbrev pub seek : ℤ → ℤ → ℕ → M ℤ
  seek fd offset whence = check libc (lseek fd offset whence)

  -- What a read is worth: EAGAIN and EINTR count as nothing to read.
  abbrev pub contents_of : Reply → Result (Option Bytes)
  contents_of r =
      if is_negative r.ret
      then (if r.errno == 11 || r.errno == 4 then ok none else err (os_error r.errno))
      else ok (some (take (to_ℕ r.ret) r.out))

  abbrev pub read_fd : ℤ → ℕ → M (Option Bytes)
  read_fd fd size w =
      let c = read fd size in (contents_of (libc w.trace c), World.record_call libc c w)

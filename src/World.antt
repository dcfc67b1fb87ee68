-- ===== src/World.antt =====
-- What lies below the package: the environment of the process and the calls of libc that
-- mpsystemd/_impl_mp.py makes through ffi. libc and the kernel are a parameter, a function that
-- answers each call from the calls before it. The world keeps the environment and the trace of
-- calls and answers.
pub mod Environment
use micropython_systemd.Prelude.{
  ℕ, Bool, true, false, List, [], ◌∷◌, map, Option, none, some, Text, Bytes, String, ℤ, is_negative,
  if◌then◌else◌,
}
use micropython_systemd.Errors.{Result, ok, err, os_error}
use micropython_systemd.Exec.{Exec}
use micropython_systemd.World.Environment.{Env}

-- The message of sendmsg: the buffers that its msghdr points to.
pub record Message : Type 0 where
  pub name : Bytes
  pub namelen : ℕ
  pub payload : Bytes
  pub control : Bytes

pub data Call : Type 0 where
  socket : ℕ → ℕ → ℕ → Call
  bind : ℤ → Bytes → ℕ → Call
  sendto : ℤ → Bytes → ℕ → Bytes → ℕ → Call
  sendmsg : ℤ → Message → ℕ → Call
  close : ℤ → Call
  pipe2 : ℕ → Call
  fcntl : ℤ → ℕ → ℕ → Call
  dup2 : ℤ → ℤ → Call
  getpid : Call
  clock_gettime : ℕ → Call
  poll : ℤ → ℕ → ℤ → Call
  memfd_create : Bytes → ℕ → Call
  write : ℤ → Bytes → Call
  lseek : ℤ → ℤ → ℕ → Call
  read : ℤ → ℕ → Call
  recv : ℤ → ℕ → ℕ → Call
  recvmsg : ℤ → ℕ → ℕ → ℕ → Call
  kill : ℤ → ℤ → Call
  sigemptyset : Bytes → Call
  sigaddset : Bytes → ℤ → Call
  sigprocmask : ℕ → Bytes → Call
  signalfd : ℤ → Bytes → ℕ → Call

-- The value that a call returns, errno where that is negative, and what it leaves in its buffers.
-- For recvmsg these are the buffer of its iovec, the control buffer and the word msg_controllen,
-- one after the other; for sigemptyset and sigaddset the set, and for sigprocmask the former mask.
pub record Reply : Type 0 where
  pub ret : ℤ
  pub errno : ℕ
  pub out : Bytes

pub record Event : Type 0 where
  pub call : Call
  pub reply : Reply

-- The latest event stands first.
abbrev pub Trace : Type 0
Trace = List Event

abbrev pub Libc : Type 0
Libc = Trace → Call → Reply

pub record World : Type 0 where
  pub env : Env
  pub trace : Trace

abbrev pub M {ℓ} : Type ℓ → Type ℓ
M A = Exec World A

abbrev pub calls : Trace → List Call
calls = map (λ e. e.call)

abbrev pub record_call : Libc → Call → World → World
record_call libc c w = record w { trace = record { call = c; reply = libc w.trace c } ∷ w.trace }

-- _check: an OSError where the call returns a negative number.
abbrev pub checked : Reply → Result ℤ
checked r = if is_negative r.ret then err (os_error r.errno) else ok r.ret

abbrev pub checked_out : Reply → Result Bytes
checked_out r = if is_negative r.ret then err (os_error r.errno) else ok r.out

module _ (libc : Libc) where
  -- A call whose result is ignored, and one whose result is taken as it is.
  abbrev pub call_raw : Call → M ℤ
  call_raw c w = (ok (libc w.trace c).ret, record_call libc c w)

  abbrev pub call_ignored : Call → M (Unit {0})
  call_ignored c w = (ok tt, record_call libc c w)

  -- _check(call)
  abbrev pub check : Call → M ℤ
  check c w = (checked (libc w.trace c), record_call libc c w)

  -- _check(call), then the buffer that the call filled
  abbrev pub check_out : Call → M Bytes
  check_out c w = (checked_out (libc w.trace c), record_call libc c w)

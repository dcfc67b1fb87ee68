-- ===== src/Cpython.antt =====
-- mpsystemd/_impl_cpy.py: the calls of the package by the modules os, fcntl, time and socket of
-- CPython. What these answer is a parameter, with the operating system behind them; the process
-- keeps its environment and the history of requests.
pub mod Signals
pub mod Sockets
pub mod Memfd
use micropython_systemd.Prelude.{
  ℕ, Bool, true, false, not, ◌==◌, ◌||◌, List, [], ◌∷◌, Option, none, some, Text, Bytes, String, ℤ,
  floor_div, if◌then◌else◌,
}
use micropython_systemd.Errors.{Result, ok, err, Error, os_error}
use micropython_systemd.Exec.{Exec, pure, ◌>>=◌, ◌>>◌}
use micropython_systemd.World.Environment.{Env}
use micropython_systemd.World.Environment

-- One control message: level, type and contents.
pub record Ancillary : Type 0 where
  pub level : ℕ
  pub kind : ℕ
  pub contents : Bytes

-- A call of a function of the standard library that asks the operating system.
pub data Request : Type 0 where
  getpid monotonic_ns pipe : Request
  kill : ℤ → ℤ → Request
  close : ℤ → Request
  read : ℤ → ℕ → Request
  write : ℤ → Bytes → Request
  dup2 : ℤ → ℤ → Request
  set_inheritable : ℤ → Bool → Request
  get_inheritable : ℤ → Request
  dupfd : ℤ → ℕ → Request
  lseek : ℤ → ℤ → ℕ → Request
  memfd_create : Text → ℕ → Request
  add_seals : ℤ → ℕ → Request
  socket : ℕ → ℕ → Request
  bind : ℤ → Bytes → Request
  sendto : ℤ → Bytes → Bytes → Request
  sendmsg : ℤ → Bytes → List Ancillary → ℕ → Bytes → Request
  recv : ℤ → ℕ → Request
  recvmsg : ℤ → ℕ → ℕ → ℕ → Request
  close_socket : ℤ → Request

-- What a call returns: each kind of call uses the fields that it needs.
pub record Answer : Type 0 where
  pub number : ℤ
  pub second : ℤ
  pub flag : Bool
  pub contents : Bytes
  pub ancillary : List Ancillary

-- The latest request stands first.
abbrev pub History : Type 0
History = List (Request × Result Answer)

-- An OSError carries the errno.
abbrev pub Os : Type 0
Os = History → Request → Result Answer

pub record Process : Type 0 where
  pub env : Env
  pub history : History

abbrev pub P {ℓ} : Type ℓ → Type ℓ
P A = Exec Process A

-- os.environ.get, assignment to os.environ and its pop
abbrev pub getenv : String → P (Option Text)
getenv name p = (ok (Environment.lookup name p.env), p)

abbrev pub setenv : String → Text → P (Unit {0})
setenv name value p = (ok tt, record p { env = Environment.insert name value p.env })

abbrev pub unsetenv : String → P (Unit {0})
unsetenv name p = (ok tt, record p { env = Environment.erase name p.env })

-- BlockingIOError, which stands for EAGAIN, EALREADY and EINPROGRESS, and InterruptedError.
abbrev pub is_blocking : ℕ → Bool
is_blocking errno = errno == 11 || errno == 114 || errno == 115 || errno == 4

-- except BlockingIOError: return None; except InterruptedError: return None
abbrev pub unless_blocking : Result Answer → Result (Option Bytes)
unless_blocking (ok a) = ok (some a.contents)
unless_blocking (err (os_error errno)) = if is_blocking errno then ok none else err (os_error errno)
unless_blocking (err e) = err e

module _ (os : Os) where
  abbrev pub ask : Request → P Answer
  ask r p = let a = os p.history r in (a, record p { history = (r, a) ∷ p.history })

  abbrev pub ask_number : Request → P ℤ
  ask_number r = do a ← ask r; pure a.number

  abbrev pub ask_nothing : Request → P (Unit {0})
  ask_nothing r = do ask r; pure tt

  abbrev pub getpid_of : P ℤ
  getpid_of = ask_number getpid

  abbrev pub monotonic_us : P ℤ
  monotonic_us = do ns ← ask_number monotonic_ns; pure (floor_div ns 1000)

  abbrev pub kill_pid : ℤ → ℤ → P (Unit {0})
  kill_pid pid signo = ask_nothing (kill pid signo)

  abbrev pub pipe_ends : P (ℤ × ℤ)
  pipe_ends = do a ← ask pipe; pure (a.number, a.second)

  abbrev pub close_fd : ℤ → P (Unit {0})
  close_fd fd = ask_nothing (close fd)

  abbrev pub read_fd : ℤ → ℕ → P (Option Bytes)
  read_fd fd size p = let (a, q) = ask (read fd size) p in (unless_blocking a, q)

  abbrev pub write_fd : ℤ → Bytes → P ℤ
  write_fd fd contents = ask_number (write fd contents)

  abbrev pub dup_to : ℤ → ℤ → P ℤ
  dup_to oldfd newfd = ask_number (dup2 oldfd newfd)

  abbrev pub set_cloexec : ℤ → P (Unit {0})
  set_cloexec fd = ask_nothing (set_inheritable fd false)

  abbrev pub clear_cloexec : ℤ → P (Unit {0})
  clear_cloexec fd = ask_nothing (set_inheritable fd true)

  abbrev pub is_cloexec : ℤ → P Bool
  is_cloexec fd = do a ← ask (get_inheritable fd); pure (not a.flag)

  abbrev pub dup_above : ℤ → ℕ → P ℤ
  dup_above fd minfd = ask_number (dupfd fd minfd)

  abbrev pub seek : ℤ → ℤ → ℕ → P ℤ
  seek fd offset whence = ask_number (lseek fd offset whence)

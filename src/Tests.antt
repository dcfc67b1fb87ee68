-- ===== src/Tests.antt =====
-- Concrete runs of the theorems: the runtime and the libc that they take as parameters, and one
-- child for each part of the package.
pub mod Sockets
pub mod Sending
pub mod Transport
pub mod Notifying
pub mod Owning
pub mod Handing
pub mod Journalling
pub mod Activating
pub mod Signalling
pub mod Listening
pub mod Backends
pub mod Linking
use micropython_systemd.Prelude.{[], ◌∷◌, ℤ, pos, Text, codes}
use micropython_systemd.Text.{Runtime}
use micropython_systemd.World.{Libc, World}

-- A runtime that changes nothing outside ASCII.
abbrev pub plain : Runtime
plain = record { wide_upper = λ c. c ∷ []; wide_ascii = λ c. c }

-- A libc whose every call returns 7.
abbrev pub seven : Libc
seven t c = record { ret = pos 7; errno = 0; out = [] }

-- Nothing has been called yet, and the environment is that of process 7 with two sockets.
abbrev pub activated : World
activated = record {
  env =
      ("LISTEN_PID", codes "7")
      ∷ ("LISTEN_FDS", codes "2")
      ∷ ("LISTEN_FDNAMES", codes "web:")
      ∷ ("WATCHDOG_USEC", codes "3000000")
      ∷ [];
  trace = [];
}

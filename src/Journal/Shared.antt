-- ===== src/Journal/Shared.antt =====
-- mpsystemd/journal.py: the writer that the functions of the module share, and the tests for the
-- presence of a path, with that of mpsystemd/util.py.
pub mod Sequence
pub mod Requests
pub mod Descriptors
pub mod Log
use micropython_systemd.Prelude.{
  ℕ, Bool, true, false, Option, none, some, Text, codes, if◌then◌else◌, ℤ,
}
use micropython_systemd.Errors.{Result, ok, err, is_os_error}
use micropython_systemd.Exec.{Exec, pure, ◌>>=◌, ◌>>◌}
use micropython_systemd.World.{World, Libc}
use micropython_systemd.Utf8.{text}
use micropython_systemd.Text.{Runtime}
use micropython_systemd.Payload.{Fields, Value}
use micropython_systemd.Native.Struct.{Abi}
use micropython_systemd.Journal.{Entry}
use micropython_systemd.Journal.Writer.{
  JournalWriter, State, W, new_writer, send_entry, send_fields,
}
use micropython_systemd.Journal.Writer

abbrev pub journal_socket : Text
journal_socket = codes "/run/systemd/journal/socket"

abbrev pub systemd_runtime_dir : Text
systemd_runtime_dir = codes "/run/systemd/system"

-- The path is there unless os.stat raises an OSError.
abbrev pub present : Result (Unit {0}) → Result Bool
present (ok u) = ok true
present (err e) = if is_os_error e then ok false else err e

module _ (stat : Text → Result (Unit {0})) where
  abbrev pub journal_available : Text → Result Bool
  journal_available path = present (stat path)

  abbrev pub booted : Text → Result Bool
  booted path = present (stat path)

-- The variable _default_writer of the module, and the world.
pub record Shared : Type 0 where
  pub writer : Option JournalWriter
  pub world : World

-- JournalWriter(), whose address is not refused.
abbrev pub or_new : Option JournalWriter → Result JournalWriter
or_new none = new_writer (text journal_socket)
or_new (some writer) = ok writer

-- A method of an object, which stays in the variable.
abbrev pub use_writer {ℓ} : {A : Type ℓ} → W A → JournalWriter → Exec Shared A
use_writer m writer s =
    let (r, t) = m (record { writer = writer; world = s.world }) in
    (r, record { writer = some t.writer; world = t.world })

-- A method of _writer().
abbrev pub run_with {ℓ} : {A : Type ℓ} → W A → Result JournalWriter → Exec Shared A
run_with m (err e) s = (err e, s)
run_with m (ok writer) s = use_writer m writer s

unfoldable pub with_shared {ℓ} : {A : Type ℓ} → W A → Exec Shared A
with_shared m s = run_with m (or_new s.writer) s

module _ (run : Runtime) (abi : Abi) (libc : Libc) (has_memfd : Bool) (fuel : ℕ) where
  abbrev pub send_shared : Option Value → Option ℤ → Fields → Exec Shared (Option Bool)
  send_shared message priority fields =
      with_shared (send_entry run abi libc has_memfd fuel message priority fields)

  abbrev pub send_fields_shared : Entry → Exec Shared (Option Bool)
  send_fields_shared fields = with_shared (send_fields abi libc has_memfd fuel run fields)

  -- What close makes of the variable: the object is dropped once its socket is closed.
  abbrev pub close_held : Option JournalWriter → Exec Shared (Unit {0})
  close_held none = pure tt
  close_held (some writer) = do
    use_writer (Writer.close abi libc has_memfd fuel) writer
    λ s. (ok tt, record s { writer = none })

  abbrev pub close_shared : Exec Shared (Unit {0})
  close_shared s = close_held s.writer s

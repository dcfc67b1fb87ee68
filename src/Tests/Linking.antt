-- ===== src/Tests/Linking.antt =====
-- Runs of the resolution of libc and of the shared journal writer.
use micropython_systemd.Prelude.{
  ◌≡◌, refl, ℕ, Bool, true, false, Option, none, some, codes, list_eq, String, [],
}
use micropython_systemd.Errors.{Result, ok, err, os_error}
use micropython_systemd.Exec.{◌>>=◌}
use micropython_systemd.Native.Struct.{Abi}
use micropython_systemd.Native.Linking.{Ffi, link}
use micropython_systemd.Native.Linking.Resolution.{Raises, IsOs, Ends, IsLinked, link-Ends}
use micropython_systemd.Journal.Writer.{W, send_raw}
use micropython_systemd.Journal.Shared.{Shared, with_shared}
use micropython_systemd.Journal.Shared.Sequence.{with_shared->>=}
use micropython_systemd.Tests.{seven}

abbrev loaded : Option String → Result (Unit {0})
loaded none = err (os_error 2)
loaded (some name) = ok tt

loaded-Raises : (name : Option String) → Raises IsOs (loaded name)
loaded-Raises none = refl
loaded-Raises (some name) = tt

abbrev exported : Bool → Result ℕ
exported true = err (os_error 2)
exported false = ok 1

exported-Raises : (missing : Bool) → Raises IsOs (exported missing)
exported-Raises true = refl
exported-Raises false = tt

-- A libc by its file name, without memfd_create.
abbrev old : Ffi (Unit {0}) ℕ
old = record {
  load = loaded;
  func = λ library name. exported (list_eq (codes name) (codes "memfd_create"));
}

link-Ends_example : Ends (IsLinked old) (link old)
link-Ends_example =
    link-Ends old loaded-Raises
      (λ library name. exported-Raises (list_eq (codes name) (codes "memfd_create")))

abbrev little : Abi
little = record { word = 8; big_endian = false }

abbrev idle : Shared
idle = record { writer = none; world = record { env = []; trace = [] } }

abbrev sends : W (Option Bool)
sends = send_raw little seven true 9 (codes "MESSAGE=a\n")

with_shared->>=_example :
    (with_shared sends >>= λ sent. with_shared sends) idle
    ≡ with_shared (sends >>= λ sent. sends) idle
with_shared->>=_example = with_shared->>= sends (λ sent. sends) idle

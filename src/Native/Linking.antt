-- ===== src/Native/Linking.antt =====
-- mpsystemd/_impl_mp.py: the search for libc, and the symbols that the module binds when it is
-- imported.
pub mod Resolution
use micropython_systemd.Prelude.{List, [], ◌∷◌, Option, none, some, String, if◌then◌else◌}
use micropython_systemd.Errors.{
  Result, ok, err, unsupported_error, no_libc, no_symbol, is_os_error, ◌>>=◌,
}

-- The module ffi: opening a library and binding a symbol of it, which raise an OSError where there
-- is none.
pub record Ffi {ℓ κ} (Library : Type ℓ) (Function : Type κ) : Type (ℓ ⊔ κ) where
  pub load : Option String → Result Library
  pub func : Library → String → Result Function

-- None stands for the symbols that the interpreter is linked against.
abbrev pub libc_candidates : List (Option String)
libc_candidates = none ∷ some "libc.so.6" ∷ some "libc.so" ∷ []

abbrev pub required_symbols : List String
required_symbols =
    "socket" ∷ "bind" ∷ "sendto" ∷ "recv" ∷ "sendmsg" ∷ "recvmsg" ∷ "close" ∷ "read" ∷ "write"
    ∷ "pipe2" ∷ "dup2" ∷ "fcntl" ∷ "lseek" ∷ "getpid" ∷ "kill" ∷ "clock_gettime" ∷ "strerror"
    ∷ "sigemptyset" ∷ "sigaddset" ∷ "sigprocmask" ∷ "signalfd" ∷ []

module _ {ℓ κ} {Library : Type ℓ} {Function : Type κ} (ffi : Ffi Library Function) where
  -- One round of the loop: a candidate that cannot be used gives way to the rest, any other
  -- exception does not.
  abbrev pub or_next : Result Library → Result Library → Result Library
  or_next (ok library) rest = ok library
  or_next (err e) rest = if is_os_error e then rest else err e

  abbrev pub probed : Result Library → Result Library
  probed (err e) = err e
  probed (ok library) = elim (ffi.func library "getpid") [ ok f ↦ ok library | err e ↦ err e ]

  unfoldable pub open_first : List (Option String) → Result Library
  open_first [] = err (unsupported_error no_libc)
  open_first (name ∷ names) = let rest = open_first names in or_next (probed (ffi.load name)) rest

  unfoldable pub open_libc : Result Library
  open_libc = open_first libc_candidates

  abbrev pub bound : Result Function → Result (Option Function)
  bound (ok f) = ok (some f)
  bound (err e) = if is_os_error e then ok none else err e

  -- _optional
  abbrev pub optional : Library → String → Result (Option Function)
  optional library name = bound (ffi.func library name)

  abbrev pub needed : Option Function → Result Function
  needed (some f) = ok f
  needed none = err (unsupported_error no_symbol)

  -- _required
  unfoldable pub required : Library → String → Result Function
  required library name = do f ← optional library name; needed f

  unfoldable pub bind_required : Library → List String → Result (List Function)
  bind_required library [] = ok []
  bind_required library (name ∷ names) = do
    f ← required library name
    fs ← bind_required library names
    ok (f ∷ fs)

  -- What importing the module binds: the functions it cannot work without, and memfd_create.
  unfoldable pub link : Result (List Function × Option Function)
  link = do
    library ← open_libc
    functions ← bind_required library required_symbols
    memfd_create ← optional library "memfd_create"
    ok (functions, memfd_create)

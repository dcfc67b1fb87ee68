-- ===== src/Platform/Environment.antt =====
-- What the rest of the package relies on of the environment, by either back end of
-- mpsystemd/_platform.py.
use text.Mathlib.Text.{◌==◌ as str_eq}
use micropython_systemd.Prelude.{
  ◌≡◌, refl, ap, ◌∙◌, Bool, true, false, ℕ, none, some, Text, String, if◌then◌else◌,
}
use micropython_systemd.Errors.{ok}
use micropython_systemd.World.{Libc}
use micropython_systemd.World.Environment.{lookup-insert, lookup-erase}
use micropython_systemd.Native.Struct.{Abi}
use micropython_systemd.Cpython.{Os}
use micropython_systemd.Platform.{Primitives, micropython, cpython}

-- The environment reads back what was set, and nothing else changes.
pub record KeepsEnvironment {S Datagram : Type 0} (primitives : Primitives S Datagram)
    : Type 0 where
  pub reads : (name : String) (s : S) → (primitives.getenv name s).1 ≡ s
  pub sets :
      (name other : String) (value : Text) (s : S)
      → (primitives.getenv other (primitives.setenv name value s).1).0
        ≡ (if str_eq name other then ok (some value) else (primitives.getenv other s).0)
  pub unsets :
      (name other : String) (s : S)
      → (primitives.getenv other (primitives.unsetenv name s).1).0
        ≡ (if str_eq name other then ok none else (primitives.getenv other s).0)

ok-if : {A : Type 0} (b : Bool) (x y : A) → ok (if b then x else y) ≡ (if b then ok x else ok y)
ok-if true x y = refl
ok-if false x y = refl

pub micropython-KeepsEnvironment :
    (abi : Abi) (libc : Libc) (has_memfd : Bool) (fuel : ℕ)
    → KeepsEnvironment (micropython abi libc has_memfd fuel)
micropython-KeepsEnvironment abi libc has_memfd fuel = record {
  reads = λ name s. refl;
  sets = λ name other value s. ap ok (lookup-insert name other value s.env) ∙ ok-if _ _ _;
  unsets = λ name other s. ap ok (lookup-erase name other s.env) ∙ ok-if _ _ _;
}

pub cpython-KeepsEnvironment :
    (abi : Abi) (cmsg_space : ℕ → ℕ) (os : Os) (has_memfd : Bool) (fuel : ℕ)
    → KeepsEnvironment (cpython abi cmsg_space os has_memfd fuel)
cpython-KeepsEnvironment abi cmsg_space os has_memfd fuel = record {
  reads = λ name s. refl;
  sets = λ name other value s. ap ok (lookup-insert name other value s.env) ∙ ok-if _ _ _;
  unsets = λ name other s. ap ok (lookup-erase name other s.env) ∙ ok-if _ _ _;
}

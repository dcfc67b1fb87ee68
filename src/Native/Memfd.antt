-- ===== src/Native/Memfd.antt =====
-- mpsystemd/_impl_mp.py, memfd_sealed. The loop that writes ends when every byte is written; it
-- takes fuel, and `none` says that the fuel ran out while bytes were left.
pub mod Contents
pub mod Closing
pub mod Descriptors
use micropython_systemd.Prelude.{
  ℕ, zero, suc, Bool, true, false, Option, none, some, [], ◌∷◌, ◌++◌, Text, Bytes, codes, drop, ℤ,
  to_ℕ,
}
use micropython_systemd.Errors.{unsupported_error, no_memfd}
use micropython_systemd.Exec.{pure, raise, ◌>>=◌, ◌>>◌, on_error}
use micropython_systemd.World.{
  M, Libc, check, call_ignored, memfd_create, write, fcntl, lseek, close,
}

-- MFD_CLOEXEC | MFD_ALLOW_SEALING, F_ADD_SEALS and MEMFD_SEALS
abbrev pub memfd_flags : ℕ
memfd_flags = 3

abbrev pub f_add_seals : ℕ
f_add_seals = 1033

abbrev pub memfd_seals : ℕ
memfd_seals = 15

module _ (libc : Libc) where
  -- The loop, with the bytes that are left.
  unfoldable pub write_all : ℕ → ℤ → Bytes → M (Option (Unit {0}))
  write_all fuel fd [] = pure (some tt)
  write_all zero fd (b ∷ view) = pure none
  write_all (suc fuel) fd (b ∷ view) = do
    n ← check libc (write fd (b ∷ view))
    write_all fuel fd (drop (to_ℕ n) (b ∷ view))

  abbrev pub seal : ℤ → Option (Unit {0}) → M (Option ℤ)
  seal fd none = pure none
  seal fd (some u) = do
    check libc (fcntl fd f_add_seals memfd_seals)
    check libc (lseek fd (ℤ.pos 0) 0)
    pure (some fd)

  abbrev pub fill : ℕ → Bytes → ℤ → M (Option ℤ)
  fill fuel contents fd =
      on_error (write_all fuel fd contents >>= seal fd) (call_ignored libc (close fd))

  -- Not every libc has memfd_create.
  unfoldable pub memfd_sealed : Bool → ℕ → Bytes → Bytes → M (Option ℤ)
  unfolding write_all
  memfd_sealed false fuel name contents = raise (unsupported_error no_memfd)
  memfd_sealed true fuel name contents =
      check libc (memfd_create (name ++ 0 ∷ []) memfd_flags) >>= fill fuel contents

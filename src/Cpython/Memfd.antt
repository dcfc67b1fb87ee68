-- ===== src/Cpython/Memfd.antt =====
-- mpsystemd/_impl_cpy.py, memfd_sealed. The loop that writes takes fuel, and `none` says that the
-- fuel ran out while bytes were left.
use micropython_systemd.Prelude.{
  ℕ, zero, suc, Bool, true, false, Option, none, some, [], ◌∷◌, Text, Bytes, drop, ℤ, to_ℕ,
}
use micropython_systemd.Errors.{unsupported_error, no_memfd}
use micropython_systemd.Exec.{pure, raise, ◌>>=◌, ◌>>◌, on_error}
use micropython_systemd.Cpython.{
  P, Os, ask_nothing, ask_number, write, memfd_create, add_seals, lseek, close,
}

-- os.MFD_CLOEXEC | os.MFD_ALLOW_SEALING, and MEMFD_SEALS
abbrev pub memfd_flags : ℕ
memfd_flags = 3

abbrev pub memfd_seals : ℕ
memfd_seals = 15

module _ (os : Os) where
  -- The loop, with the bytes that are left.
  unfoldable pub write_all : ℕ → ℤ → Bytes → P (Option (Unit {0}))
  write_all fuel fd [] = pure (some tt)
  write_all zero fd (b ∷ view) = pure none
  write_all (suc fuel) fd (b ∷ view) = do
    n ← ask_number os (write fd (b ∷ view))
    write_all fuel fd (drop (to_ℕ n) (b ∷ view))

  abbrev pub seal : ℤ → Option (Unit {0}) → P (Option ℤ)
  seal fd none = pure none
  seal fd (some u) = do
    ask_nothing os (add_seals fd memfd_seals)
    ask_nothing os (lseek fd (ℤ.pos 0) 0)
    pure (some fd)

  abbrev pub fill : ℕ → Bytes → ℤ → P (Option ℤ)
  fill fuel contents fd =
      on_error (write_all fuel fd contents >>= seal fd) (ask_nothing os (close fd))

  -- Not every os has memfd_create.
  unfoldable pub memfd_sealed : Bool → ℕ → Text → Bytes → P (Option ℤ)
  unfolding write_all
  memfd_sealed false fuel name contents = raise (unsupported_error no_memfd)
  memfd_sealed true fuel name contents =
      ask_number os (memfd_create name memfd_flags) >>= fill fuel contents

-- ===== src/Install.antt =====
-- `install_listen_fds` of mpsystemd/testing.py: present descriptors as systemd would.
pub mod RoundTrip
use micropython_systemd.Prelude.{
  ℕ, zero, suc, ◌+◌, Bool, true, false, not, List, [], ◌∷◌, Option, none, some, Text, length, ◌==◌,
  if◌then◌else◌, ℤ, pos,
}
use micropython_systemd.Errors.{value_error, name_count}
use micropython_systemd.Exec.{pure, raise, finally, ◌>>=◌, ◌>>◌}
use micropython_systemd.World.{M, Libc}
use micropython_systemd.Native.{
  setenv, unsetenv, getpid, close_fd, clear_cloexec, dup_above, dup_to,
}
use micropython_systemd.Text.{str_int, join}

module _ (libc : Libc) where
  -- [dup_above(fd, minfd) for fd in fds]
  pub dup_all : ℕ → List ℤ → M (List ℤ)
  dup_all minfd [] = pure []
  dup_all minfd (fd ∷ fds) = do
    copy ← dup_above libc fd minfd
    copies ← dup_all minfd fds
    pure (copy ∷ copies)

  -- The loop that puts the copies onto `target`, `target` + 1 and so on.
  pub place_all : ℕ → List ℤ → M (Unit {0})
  place_all target [] = pure tt
  place_all target (fd ∷ fds) = do
    dup_to libc fd (pos target)
    clear_cloexec libc (pos target)
    place_all (suc target) fds

  pub close_all : List ℤ → M (Unit {0})
  close_all [] = pure tt
  close_all (fd ∷ fds) = do close_fd libc fd; close_all fds

  -- list(range(start, start + n))
  abbrev pub range : ℕ → ℕ → List ℤ
  range start zero = []
  range start (suc n) = pos start ∷ range (suc start) n

  abbrev pub set_names : Option (List Text) → M (Unit {0})
  set_names none = unsetenv "LISTEN_FDNAMES"
  set_names (some names) = setenv "LISTEN_FDNAMES" (join b':' names)

  -- The variables, and the result.
  pub announce : ℕ → Option (List Text) → ℕ → M (List ℤ)
  announce n names start = do
    me ← getpid libc
    setenv "LISTEN_PID" (str_int me)
    setenv "LISTEN_FDS" (str_int (pos n))
    set_names names
    pure (range start n)

  -- names is not None and len(names) != len(fds)
  abbrev pub mismatch : Option (List Text) → ℕ → Bool
  mismatch none n = false
  mismatch (some names) n = not (length names == n)

  unfoldable pub install_listen_fds : List ℤ → Option (List Text) → ℕ → M (List ℤ)
  unfolding dup_all place_all close_all announce
  install_listen_fds fds names start =
      if mismatch names (length fds) then raise (value_error name_count) else do
        scratch ← dup_all (start + length fds) fds
        finally (place_all start scratch) (close_all scratch)
        announce (length fds) names start

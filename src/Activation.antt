-- ===== src/Activation.antt =====
-- mpsystemd/activation.py: socket activation.
pub mod Marks
pub mod Names
pub mod Grouping
use micropython_systemd.Prelude.{
  ℕ, zero, suc, truthy, ◌+◌, Bool, true, false, not, ◌&&◌, ◌||◌, List, [], ◌∷◌, ◌++◌, map, Option,
  none, some, Text, codes, length, replicate, list_eq, ◌==◌, if◌then◌else◌, ℤ, pos, eq_ℤ,
  is_nonpositive, to_ℕ,
}
use micropython_systemd.Errors.{Result, ok, systemd_error, name_count}
use micropython_systemd.Exec.{pure, raise, when, ◌>>=◌, ◌>>◌}
use micropython_systemd.World.{M, Libc}
use micropython_systemd.Native.{getenv, unsetenv, getpid, set_cloexec}
use micropython_systemd.Text.{Runtime, split}
use micropython_systemd.Watchdog.{is_blank, int_of}

abbrev pub listen_fds_start : ℕ
listen_fds_start = 3

-- The name of a descriptor that has none.
abbrev pub unnamed : Text
unnamed = codes "unknown"

abbrev pub unset_listen_environment : M (Unit {0})
unset_listen_environment = do
  unsetenv "LISTEN_PID"
  unsetenv "LISTEN_FDS"
  unsetenv "LISTEN_FDNAMES"

-- The three variables, in the order LISTEN_PID, LISTEN_FDS, LISTEN_FDNAMES.
pub take_environment : Bool → M (Option Text × Option Text × Option Text)
take_environment unset_environment = do
  pid_text ← getenv "LISTEN_PID"
  count_text ← getenv "LISTEN_FDS"
  names_text ← getenv "LISTEN_FDNAMES"
  when unset_environment unset_listen_environment
  pure (pid_text, count_text, names_text)

module _ (libc : Libc) where
  -- The loop over the descriptors from `fd` on, `n` of them.
  pub mark_cloexec : ℕ → ℕ → M (Unit {0})
  mark_cloexec fd zero = pure tt
  mark_cloexec fd (suc n) = do set_cloexec libc (pos fd); mark_cloexec (suc fd) n

module _ (run : Runtime) (libc : Libc) where
  -- What follows the two calls of `int`; `none` is a ValueError from one of them.
  pub count_for : Option ℤ → Option ℤ → M ℕ
  count_for none n = pure 0
  count_for (some pid) none = pure 0
  count_for (some pid) (some n) = do
    me ← getpid libc
    pure (if not (eq_ℤ pid me) || is_nonpositive n then 0 else to_ℕ n)

  pub count : Option Text → Option Text → M ℕ
  unfolding count_for
  count pid_text count_text =
      if is_blank pid_text || is_blank count_text
      then pure 0
      else count_for (int_of run pid_text) (int_of run count_text)

  unfoldable pub listen_fds : Bool → Bool → M ℕ
  unfolding take_environment count mark_cloexec
  listen_fds unset_environment cloexec = do
    texts ← take_environment unset_environment
    n ← count texts.0 texts.1
    when (truthy n && cloexec) (mark_cloexec libc listen_fds_start n)
    pure n

-- name or UNNAMED
abbrev pub or_unnamed : Text → Text
or_unnamed [] = unnamed
or_unnamed (c ∷ s) = c ∷ s

-- names_text.split(":") against the count.
pub match_names : List Text → ℕ → M (List Text)
match_names names n =
    if not (length names == n)
    then raise (systemd_error name_count)
    else pure (map or_unnamed names)

pub names_for : Option Text → ℕ → M (List Text)
unfolding match_names
names_for none n = pure (replicate n unnamed)
names_for (some []) n = pure (replicate n unnamed)
names_for (some (c ∷ s)) n = match_names (split b':' (c ∷ s)) n

module _ (libc : Libc) where
  -- What follows the count.
  pub listed : Option Text → Bool → ℕ → M (List Text)
  unfolding mark_cloexec names_for
  listed names_text cloexec zero = pure []
  listed names_text cloexec (suc n) = do
    when cloexec (mark_cloexec libc listen_fds_start (suc n))
    names_for names_text (suc n)

module _ (run : Runtime) (libc : Libc) where
  unfoldable pub listen_fd_names : Bool → Bool → M (List Text)
  unfolding take_environment count listed
  listen_fd_names unset_environment cloexec = do
    texts ← take_environment unset_environment
    n ← count run libc texts.0 texts.1
    listed libc texts.2 cloexec n

-- A `dict` of descriptor lists, in insertion order.
abbrev pub Groups : Type 0
Groups = List (Text × List ℤ)

-- mapping.setdefault(name, []).append(fd)
pub append_to : Text → ℤ → Groups → Groups
append_to name fd [] = (name, fd ∷ []) ∷ []
append_to name fd ((k, fds) ∷ m) =
    let rest = append_to name fd m in
    if list_eq k name then (k, fds ++ fd ∷ []) ∷ m else (k, fds) ∷ rest

-- The loop over the names, the first of which belongs to the descriptor `fd`.
pub group : ℕ → List Text → Groups → Groups
unfolding append_to
group fd [] mapping = mapping
group fd (name ∷ names) mapping = group (suc fd) names (append_to name (pos fd) mapping)

unfoldable pub listen_fds_with_names : Runtime → Libc → Bool → Bool → M Groups
unfolding listen_fd_names group
listen_fds_with_names run libc unset_environment cloexec = do
  names ← listen_fd_names run libc unset_environment cloexec
  pure (group listen_fds_start names [])

-- ===== src/Native/Signals.antt =====
-- mpsystemd/_impl_mp.py, the class SignalSource: signals read from a signalfd.
pub mod Mask
pub mod Session
pub mod Descriptors
use micropython_systemd.Prelude.{
  ℕ, ◌+◌, Bool, true, false, List, [], ◌∷◌, Option, none, some, Bytes, ltb, ◌==◌, ◌||◌,
  if◌then◌else◌, ℤ, pos, negsuc, is_negative, to_ℕ, replicate,
}
use micropython_systemd.Errors.{Result, ok, err, os_error, systemd_error, not_open}
use micropython_systemd.Exec.{Exec, pure, raise, lift, ◌>>=◌, ◌>>◌}
use micropython_systemd.World.{
  World, M, Libc, Reply, sigemptyset, sigaddset, sigprocmask, signalfd, read, close, check,
  check_out, call_ignored, record_call,
}
use micropython_systemd.Native.Struct.{Abi, unpack_unsigned}

abbrev pub sig_block : ℕ
sig_block = 0

abbrev pub sig_setmask : ℕ
sig_setmask = 2

abbrev pub sigset_size : ℕ
sigset_size = 128

abbrev pub signalfd_siginfo_size : ℕ
signalfd_siginfo_size = 128

-- SFD_CLOEXEC | SFD_NONBLOCK
abbrev pub signalfd_flags : ℕ
signalfd_flags = 0o2000000 + 0o4000

-- EAGAIN or EINTR
abbrev pub is_transient : ℕ → Bool
is_transient errno = errno == 11 || errno == 4

-- A closed source has the descriptor -1.
pub record SignalSource : Type 0 where
  pub signals : List ℤ
  pub fd : ℤ
  pub saved : Option Bytes

pub record State : Type 0 where
  pub source : SignalSource
  pub world : World

abbrev pub on_world {ℓ} : {A : Type ℓ} → M A → Exec State A
on_world m s = let (r, w) = m s.world in (r, record s { world = w })

-- SignalSource(signals)
abbrev pub new_source : List ℤ → SignalSource
new_source signals = record { signals = signals; fd = negsuc 0; saved = none }

abbrev pub put_saved : Option Bytes → Exec State (Unit {0})
put_saved saved s = (ok tt, record s { source = record s.source { saved = saved } })

abbrev pub put_fd : ℤ → Exec State (Unit {0})
put_fd fd s = (ok tt, record s { source = record s.source { fd = fd } })

module _ (libc : Libc) where
  -- The loop over the signals, with the set so far.
  pub add_signals : Bytes → List ℤ → M Bytes
  add_signals mask [] = pure mask
  add_signals mask (signo ∷ signals) = do
    mask' ← check_out libc (sigaddset mask signo)
    add_signals mask' signals

  -- What follows the call of signalfd: a failure takes the mask back.
  abbrev pub keep_fd : Bytes → Result ℤ → Exec State (Unit {0})
  keep_fd saved (ok fd) = put_fd fd
  keep_fd saved (err e) = do
    on_world (call_ignored libc (sigprocmask sig_setmask saved))
    put_saved none
    raise e

  abbrev pub open_fd : Bytes → Bytes → Exec State (Unit {0})
  open_fd mask saved s =
      let c = signalfd (negsuc 0) mask signalfd_flags in
      let (r, t) = on_world (check libc c) s in keep_fd saved r t

  unfoldable pub open_source : Exec State (Unit {0})
  unfolding add_signals
  open_source s =
      (do
        empty ← on_world (check_out libc (sigemptyset (replicate sigset_size 0)))
        mask ← on_world (add_signals empty s.source.signals)
        saved ← on_world (check_out libc (sigprocmask sig_block mask))
        put_saved (some saved)
        open_fd mask saved)
        s

  -- What one read is worth.
  abbrev pub signal_of : Abi → Reply → Result (Option ℤ)
  signal_of abi r =
      if is_negative r.ret
      then (if is_transient r.errno then ok none else err (os_error r.errno))
      else if ltb (to_ℕ r.ret) 4
      then ok none
      else ok (some (pos (unpack_unsigned abi 4 r.out)))

  abbrev pub read_signal : Abi → ℤ → M (Option ℤ)
  read_signal abi fd w =
      let c = read fd signalfd_siginfo_size in
      (signal_of abi (libc w.trace c), record_call libc c w)

  unfoldable pub pending : Abi → Exec State (Option ℤ)
  pending abi s =
      if is_negative s.source.fd
      then raise (systemd_error not_open) s
      else on_world (read_signal abi s.source.fd) s

  abbrev pub close_signalfd : Exec State (Unit {0})
  close_signalfd s =
      if is_negative s.source.fd
      then (ok tt, s)
      else (do on_world (call_ignored libc (close s.source.fd)); put_fd (negsuc 0)) s

  abbrev pub restore_saved : Option Bytes → Exec State (Unit {0})
  restore_saved none = pure tt
  restore_saved (some saved) = do
    on_world (call_ignored libc (sigprocmask sig_setmask saved))
    put_saved none

  abbrev pub restore_mask : Exec State (Unit {0})
  restore_mask s = restore_saved s.source.saved s

  unfoldable pub close_source : Exec State (Unit {0})
  close_source = do close_signalfd; restore_mask

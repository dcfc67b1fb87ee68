-- ===== src/Signals/Masked.antt =====
-- wait_for_signals of mpsystemd/signals.py over the SignalSource of mpsystemd/_impl_mp.py.
use micropython_systemd.Prelude.{ℕ, ◌≡◌, refl, List, inl, inr, none, ℤ, Bytes, ◌∙◌, ap}
use micropython_systemd.Errors.{Result, ok, err}
use micropython_systemd.Exec.{Exec}
use micropython_systemd.World.{Libc}
use micropython_systemd.Native.Struct.{Abi}
use micropython_systemd.Native.Signals.{State, new_source, open_source, pending, close_source}
use micropython_systemd.Native.Signals.Mask.{
  plain, mask_of, Closed, Inv, closed, in_use, Opening, IsKernel, open_source-Opening,
  close_source-Closed, pending-Inv,
}
use micropython_systemd.Signals.{Backend, Signals, wait_for_signals}
use micropython_systemd.Signals.Ending.{IsSource, Opened, wait_for_signals-Shut}

-- The class of _impl_mp.py, where WAITABLE is false.
abbrev pub signalfd_backend : Libc → Abi → Backend State
signalfd_backend libc abi = record {
  create = λ signals s. record s { source = new_source signals };
  open_up = open_source libc;
  close = close_source libc;
  pending = pending libc abi;
  wait = none;
}

module _ (libc : Libc) (abi : Abi) (start : Bytes) (kernel : IsKernel libc start)
    (sleep_ms : ℤ → Exec State (Unit {0}))
    (source_kept : (ms : ℤ) (s : State) → (sleep_ms ms s).1.source ≡ s.source)
    (mask_kept : (ms : ℤ) (s : State)
      → mask_of start (sleep_ms ms s).1.world.trace ≡ mask_of start s.world.trace) where
  sleep-Inv : (ms : ℤ) (s : State) → Inv start s → Inv start (sleep_ms ms s).1
  sleep-Inv ms s (closed (fd, saved, mask)) =
      closed (rw (source_kept ms s) (fd, saved, mask_kept ms s ∙ mask))
  sleep-Inv ms s (in_use set fd saved mask) =
      in_use set (rw (source_kept ms s) fd) (rw (source_kept ms s) saved) (mask_kept ms s ∙ mask)

  opens :
      (s : State)
      → Closed start s
      → Opened (Inv start) (Closed start) (open_source libc s).0 (open_source libc s).1
  opens s shut = go (open_source libc s).0 (open_source-Opening libc start kernel s shut)
    where
      go :
          (r : Result (Unit {0}))
          → Opening start r (open_source libc s).1
          → Opened (Inv start) (Closed start) r (open_source libc s).1
      go (ok u) h = h
      go (err e) h = h

  signalfd-IsSource :
      IsSource
        (signalfd_backend libc abi)
        sleep_ms
        (λ signals s. mask_of start s.world.trace ≡ plain start)
        (Closed start)
        (Inv start)
  signalfd-IsSource = record {
    creates = λ signals s mask. (refl, refl, mask);
    opens = opens;
    polls = pending-Inv libc start kernel abi;
    sleeps = sleep-Inv;
    waits = λ w e. cc;
    closes = close_source-Closed libc start kernel;
  }

  -- On the signalfd, where setting the mask succeeds and blocking hands out the former mask, and
  -- where the sleep between polls leaves the source and the mask alone: a call of wait_for_signals
  -- under the mask `start` leaves that mask in place, with any arguments, whichever calls of libc
  -- fail, and whether it returns a signal, gives up or raises.
  pub mask_of-wait_for_signals :
      (n : ℕ) (signals : Signals) (poll_ms : ℤ) (s : State)
      → mask_of start s.world.trace ≡ plain start
      → mask_of start
          (wait_for_signals (signalfd_backend libc abi) sleep_ms n signals poll_ms s).1.world.trace
        ≡ plain start
  mask_of-wait_for_signals n signals poll_ms s mask =
      let idle : List ℤ → State → Type 0 = λ signals t. mask_of start t.world.trace ≡ plain start in
      elim (wait_for_signals-Shut (signalfd_backend libc abi) sleep_ms idle (Closed start)
        (Inv start) signalfd-IsSource n signals poll_ms s mask) [
          | inl (fd, saved, restored) ↦ restored
          | inr (raised, same) ↦ ap (λ t. mask_of start t.world.trace) same ∙ mask
        ]

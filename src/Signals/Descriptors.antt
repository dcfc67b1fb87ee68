-- ===== src/Signals/Descriptors.antt =====
-- The descriptor of wait_for_signals of mpsystemd/signals.py over the SignalSource of
-- mpsystemd/_impl_mp.py.
use micropython_systemd.Prelude.{ℕ, ◌≡◌, refl, ap, arith, [], inl, inr, ℤ}
use micropython_systemd.Errors.{Result, ok, err}
use micropython_systemd.Exec.{Exec}
use micropython_systemd.World.{World, Libc}
use micropython_systemd.Native.Struct.{Abi}
use micropython_systemd.Native.Signals.{State, new_source, open_source}
use micropython_systemd.Native.Signals.Descriptors.{
  in_source, unless_closed, Live, Shut, Opening, open_source-Opening, pending-Live,
  close_source-Shut,
}
use micropython_systemd.Signals.{Signals, wait_for_signals}
use micropython_systemd.Signals.Ending.{IsSource, Opened, wait_for_signals-Shut}
use micropython_systemd.Signals.Masked.{signalfd_backend}
use micropython_systemd.Descriptors.{count, opens, closes, Accounted, Owes-trans}

module _ (libc : Libc) (abi : Abi) (sleep_ms : ℤ → Exec State (Unit {0}))
    (source_kept : (ms : ℤ) (s : State) → (sleep_ms ms s).1.source ≡ s.source)
    (sleep_accounted : (ms : ℤ) (s : State)
      → Accounted abi s.world.trace [] (sleep_ms ms s).1.world.trace []) where
  -- A source that is closed, over the calls so far.
  abbrev idle_at : World → State
  idle_at w = record { source = new_source []; world = w }

  sleeps-Live :
      (w : World) (ms : ℤ) (t : State)
      → Live abi libc (idle_at w) t
      → Live abi libc (idle_at w) (sleep_ms ms t).1
  sleeps-Live w ms t p = record {
    accounts = λ d. omega (
      arith,
      p.accounts d,
      sleep_accounted ms t d,
      ap (λ x. count d (unless_closed x.fd)) (source_kept ms t),
    );
  }

  opens_up :
      (w : World) (s : State)
      → Shut abi libc (idle_at w) s
      → Opened
          (Live abi libc (idle_at w))
          (Shut abi libc (idle_at w))
          (open_source libc s).0
          (open_source libc s).1
  opens_up w s (p, shut) = go (open_source libc s).0 _ (open_source-Opening abi libc s shut)
    where
      go :
          (r : Result (Unit {0})) (t : State)
          → Opening abi libc s r t
          → Opened (Live abi libc (idle_at w)) (Shut abi libc (idle_at w)) r t
      go (ok u) t h = Owes-trans abi in_source p h
      go (err e) t h = (Owes-trans abi in_source p h.0, h.1)

  signalfd-IsSource :
      (w : World)
      → IsSource
          (signalfd_backend libc abi)
          sleep_ms
          (λ signals s. s.world ≡ w)
          (Shut abi libc (idle_at w))
          (Live abi libc (idle_at w))
  signalfd-IsSource w = record {
    creates = λ signals s e. (rw e (record { accounts = λ d. refl }), refl);
    opens = opens_up w;
    polls = λ s. pending-Live abi libc (idle_at w) s;
    sleeps = sleeps-Live w;
    waits = λ m e. cc;
    closes = λ s. close_source-Shut abi libc (idle_at w) s;
  }

  -- On the signalfd, where the sleep between polls leaves the source alone and no descriptor open:
  -- a call of wait_for_signals takes back every descriptor that its calls gave, with any arguments,
  -- whichever calls of libc fail, and whether it returns a signal, gives up or raises.
  pub wait_for_signals-Accounted :
      (n : ℕ) (signals : Signals) (poll_ms : ℤ) (s : State)
      → Accounted abi s.world.trace []
          (wait_for_signals (signalfd_backend libc abi) sleep_ms n signals poll_ms s).1.world.trace
          []
  wait_for_signals-Accounted n signals poll_ms s d =
      let t = (wait_for_signals (signalfd_backend libc abi) sleep_ms n signals poll_ms s).1 in
      elim (wait_for_signals-Shut (signalfd_backend libc abi) sleep_ms
        (λ signals t. t.world ≡ s.world) (Shut abi libc (idle_at s.world))
        (Live abi libc (idle_at s.world)) (signalfd-IsSource s.world) n signals poll_ms s refl) [
          | inl (p, shut) ↦
              let empty : count d (unless_closed t.source.fd) ≡ 0 = rw shut refl in
              omega (arith, p.accounts d, empty)
          | inr (raised, same) ↦ omega (
            arith,
            ap (λ x. opens abi d x.world.trace) same,
            ap (λ x. closes abi d x.world.trace) same,
          )
        ]

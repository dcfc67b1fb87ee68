-- ===== src/Signals.antt =====
-- mpsystemd/signals.py: SignalWatcher, wait_for_signals and wait_for_shutdown, over what a
-- platform's SignalSource offers. Coroutines run to their end; the `await` of a poll is a call of
-- the given sleep.
pub mod Ending
pub mod Polling
pub mod Masked
pub mod Descriptors
use micropython_systemd.Prelude.{
  ℕ, zero, suc, Bool, true, false, List, [], ◌∷◌, Option, none, some, if◌then◌else◌, ℤ, pos,
  is_nonpositive,
}
use micropython_systemd.Errors.{Result, ok, err, value_error, no_signals, bad_poll}
use micropython_systemd.Errors
use micropython_systemd.Exec.{Exec, pure, lift, when, finally, ◌>>=◌, ◌>>◌}

-- The class SignalSource of a platform, with what its methods work on. `create` puts a new object
-- in place; `wait` is there where WAITABLE holds, and gives up, with `none`, after a number of
-- rounds.
pub record Backend (S : Type 0) : Type 0 where
  pub create : List ℤ → S → S
  pub open_up : Exec S (Unit {0})
  pub close : Exec S (Unit {0})
  pub pending : Exec S (Option ℤ)
  pub wait : Option (ℕ → Exec S (Option ℤ))

-- SIGTERM, SIGINT
abbrev pub shutdown_signals : List ℤ
shutdown_signals = pos 15 ∷ pos 2 ∷ []

abbrev pub default_poll_ms : ℤ
default_poll_ms = pos 200

-- One number, or a sequence of them.
pub data Signals : Type 0 where
  one : ℤ → Signals
  several : List ℤ → Signals

-- Without its source, which stands beside it.
pub record SignalWatcher : Type 0 where
  pub signals : List ℤ
  pub poll_ms : ℤ
  pub is_open : Bool

pub record State (S : Type 0) : Type 0 where
  pub watcher : SignalWatcher
  pub source : S

abbrev pub signals_of : Signals → List ℤ
signals_of (one signo) = signo ∷ []
signals_of (several signals) = signals

-- The tests of __init__, and the object that it fills.
pub init : List ℤ → ℤ → Result SignalWatcher
init [] poll_ms = err (value_error no_signals)
init (signo ∷ rest) poll_ms =
    if is_nonpositive poll_ms
    then err (value_error bad_poll)
    else ok (record { signals = signo ∷ rest; poll_ms = poll_ms; is_open = false })

module _ {S : Type 0} where
  abbrev pub on_source {ℓ} : {A : Type ℓ} → Exec S A → Exec (State S) A
  on_source m s = let (r, t) = m s.source in (r, record s { source = t })

  abbrev pub put_open : Bool → Exec (State S) (Unit {0})
  put_open b s = (ok tt, record s { watcher = record s.watcher { is_open = b } })

module _ {S : Type 0} (backend : Backend S) where
  abbrev pub open_watcher : Exec (State S) (Unit {0})
  open_watcher = do on_source backend.open_up; put_open true

  abbrev pub close_watcher : Exec (State S) (Unit {0})
  close_watcher s = when s.watcher.is_open (do on_source backend.close; put_open false) s

  abbrev pub pending : Exec (State S) (Option ℤ)
  pending = on_source backend.pending

  -- What a poll is worth: a signal ends the loop.
  abbrev pub found_or : Option ℤ → Exec (State S) (Option ℤ) → Exec (State S) (Option ℤ)
  found_or (some signo) rest = pure (some signo)
  found_or none rest = rest

  module _ (sleep_ms : ℤ → Exec S (Unit {0})) where
    -- The loop of wait, for a number of rounds: `none` where no signal came in them.
    unfoldable pub poll_rounds : ℕ → Exec (State S) (Option ℤ)
    poll_rounds zero s = (ok none, s)
    poll_rounds (suc rounds) s =
        (do
          found ← pending
          found_or found (do on_source (sleep_ms s.watcher.poll_ms); poll_rounds rounds))
          s

    abbrev pub wait_by : Option (ℕ → Exec S (Option ℤ)) → ℕ → Exec (State S) (Option ℤ)
    wait_by none rounds = poll_rounds rounds
    wait_by (some wait) rounds = on_source (wait rounds)

    unfoldable pub wait : ℕ → Exec (State S) (Option ℤ)
    wait = wait_by backend.wait

    -- async with watcher: return await watcher.wait()
    abbrev pub watch : ℕ → Exec (State S) (Option ℤ)
    watch rounds = do open_watcher; finally (wait rounds) close_watcher

    -- What follows the tests of __init__.
    abbrev pub watch_with : ℕ → Result SignalWatcher → Exec S (Option ℤ)
    watch_with rounds (err e) s = (err e, s)
    watch_with rounds (ok watcher) s =
        let (r, t) =
          watch rounds (record { watcher = watcher; source = backend.create watcher.signals s }) in
        (r, t.source)

    unfoldable pub wait_for_signals : ℕ → Signals → ℤ → Exec S (Option ℤ)
    unfolding init
    wait_for_signals rounds signals poll_ms = watch_with rounds (init (signals_of signals) poll_ms)

    unfoldable pub wait_for_shutdown : ℕ → ℤ → Exec S (Option ℤ)
    wait_for_shutdown rounds poll_ms = wait_for_signals rounds (several shutdown_signals) poll_ms

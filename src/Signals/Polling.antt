-- ===== src/Signals/Polling.antt =====
-- The polling loop of SignalWatcher.wait in mpsystemd/signals.py.
use micropython_systemd.Prelude.{
  ℕ, zero, suc, ◌≡◌, ◌<◌, ◌+◌, ◌-◌, refl, ap, ◌∙◌, none, some, ℤ, arith,
}
use micropython_systemd.Errors.{ok}
use micropython_systemd.Exec.{Exec}
use micropython_systemd.Signals.{Backend, SignalWatcher, State, poll_rounds, wait, wait_by}

module _ {S : Type 0} (backend : Backend S) (sleep_ms : ℤ → Exec S (Unit {0})) where
  -- From the first state to the second, a number of polls find nothing and each sleep returns.
  pub data Quiet (ms : ℤ) (s : S) : ℕ → S → Type 0 where
    here : Quiet ms s zero s
    next :
        {n : ℕ} {t : S}
        → Quiet ms s n t
        → (backend.pending t).0 ≡ ok none
        → (sleep_ms ms (backend.pending t).1).0 ≡ ok tt
        → Quiet ms s (suc n) (sleep_ms ms (backend.pending t).1).1

  module _ (watcher : SignalWatcher) where
    abbrev at : S → State S
    at s = record { watcher = watcher; source = s }

    poll_rounds-found :
        (n : ℕ) (s : S) {signo : ℤ}
        → (backend.pending s).0 ≡ ok (some signo)
        → poll_rounds backend sleep_ms (suc n) (at s) ≡ (ok (some signo), at (backend.pending s).1)
    unfolding poll_rounds
    poll_rounds-found n s found = rw found refl

    poll_rounds-next :
        (n : ℕ) (s : S)
        → (backend.pending s).0 ≡ ok none
        → (sleep_ms watcher.poll_ms (backend.pending s).1).0 ≡ ok tt
        → poll_rounds backend sleep_ms (suc n) (at s)
          ≡ poll_rounds backend sleep_ms n (at (sleep_ms watcher.poll_ms (backend.pending s).1).1)
    unfolding poll_rounds
    poll_rounds-next n s quiet slept = rw (quiet, slept) refl

    poll_rounds-Quiet :
        {s : S} (n m : ℕ) {t : S}
        → Quiet watcher.poll_ms s n t
        → poll_rounds backend sleep_ms (n + m) (at s) ≡ poll_rounds backend sleep_ms m (at t)
    poll_rounds-Quiet {s} n m here =
        ap (λ rounds. poll_rounds backend sleep_ms rounds (at s)) (omega arith)
    poll_rounds-Quiet {s} n m (next {n = k} {t = t} quiet none_yet slept) =
        let count : suc k + m ≡ k + suc m = omega arith in
        ap (λ rounds. poll_rounds backend sleep_ms rounds (at s)) count
        ∙ poll_rounds-Quiet k (suc m) quiet
        ∙ poll_rounds-next m t none_yet slept

    -- Where WAITABLE is false, wait polls until a signal is there: after any number of polls that
    -- find nothing, with sleeps that return, a poll that finds a signal makes wait return it at
    -- once, whatever number of rounds above that count it is given.
    pub wait-Quiet :
        (n rounds : ℕ) {s t : S} {signo : ℤ}
        → backend.wait ≡ none
        → Quiet watcher.poll_ms s n t
        → (backend.pending t).0 ≡ ok (some signo)
        → n < rounds
        → wait backend sleep_ms rounds (at s) ≡ (ok (some signo), at (backend.pending t).1)
    unfolding wait
    wait-Quiet n rounds {s} {t} polled quiet found bound =
        let left = rounds - suc n in
        let count : rounds ≡ n + suc left = omega (arith, bound) in
        ap (λ w. wait_by backend sleep_ms w rounds (at s)) polled
        ∙ ap (λ r. poll_rounds backend sleep_ms r (at s)) count
        ∙ poll_rounds-Quiet n (suc left) quiet
        ∙ poll_rounds-found left t found

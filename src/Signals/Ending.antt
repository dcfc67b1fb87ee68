-- ===== src/Signals/Ending.antt =====
-- How wait_for_signals of mpsystemd/signals.py ends, over any source that keeps its contract, and
-- over the signalfd of mpsystemd/_impl_mp.py.
use micropython_systemd.Prelude.{
  ◌⊎◌, inl, inr, ℕ, zero, suc, ◌≡◌, refl, List, [], ◌∷◌, Bool, true, false, Option, none, some, ℤ,
  arith,
}
use micropython_systemd.Errors.{Result, ok, err, Error, Result-cases}
use micropython_systemd.Exec.{Exec, ◌>>◌, >>=-outcome, finally, when}
use micropython_systemd.Signals.{
  SignalWatcher, Backend, Signals, State, signals_of, init, on_source, put_open, open_watcher,
  close_watcher, pending, found_or, poll_rounds, wait, wait_by, watch, wait_for_signals,
}

-- What an attempt to open leaves: an open source, or a closed one where it raised.
abbrev pub Opened : {S : Type 0} → (S → Type 0) → (S → Type 0) → Result (Unit {0}) → S → Type 0
Opened Live Shut (ok u) s = Live s
Opened Live Shut (err e) s = Shut s

-- The contract of a source: `Idle` before it is made for
-- some signals, `Shut` while it is closed and `Live` while
-- it is open. The sleep between polls is part of what may happen while it is open.
pub record IsSource {S : Type 0} (backend : Backend S) (sleep_ms : ℤ → Exec S (Unit {0}))
    (Idle : List ℤ → S → Type 0) (Shut Live : S → Type 0) : Type 0 where
  pub creates : (signals : List ℤ) (s : S) → Idle signals s → Shut (backend.create signals s)
  pub opens : (s : S) → Shut s → Opened Live Shut (backend.open_up s).0 (backend.open_up s).1
  pub polls : (s : S) → Live s → Live (backend.pending s).1
  pub sleeps : (ms : ℤ) (s : S) → Live s → Live (sleep_ms ms s).1
  pub waits :
      (w : ℕ → Exec S (Option ℤ))
      → backend.wait ≡ some w
      → (n : ℕ) (s : S) → Live s
      → Live (w n s).1
  pub closes : (s : S) → Live s → Shut (backend.close s).1

signals-init :
    (signals : List ℤ) (poll_ms : ℤ) {watcher : SignalWatcher}
    → init signals poll_ms ≡ ok watcher
    → watcher.signals ≡ signals
unfolding init
signals-init [] poll_ms e = cc
signals-init (signo ∷ rest) poll_ms e = ground (arith, e)

module _ {S : Type 0} (backend : Backend S) (sleep_ms : ℤ → Exec S (Unit {0}))
    (Idle : List ℤ → S → Type 0) (Shut Live : S → Type 0)
    (source : IsSource backend sleep_ms Idle Shut Live) where
  -- An open watcher over an open source.
  abbrev Watching : State S → Type 0
  Watching s = (s.watcher.is_open ≡ true) × Live s.source

  poll_rounds-Watching :
      (n : ℕ) (s : State S) → Watching s → Watching (poll_rounds backend sleep_ms n s).1
  unfolding poll_rounds
  poll_rounds-Watching zero s h = h
  poll_rounds-Watching (suc n) s (opened, live) =
      let next : Exec (State S) (Option ℤ) =
        on_source (sleep_ms s.watcher.poll_ms) >> poll_rounds backend sleep_ms n in
      let polled = source.polls s.source live in
      let t = (pending backend s).1 in
      >>=-outcome (λ r v. Watching v) (pending backend) (λ found. found_or backend found next) s
        (λ e h. (opened, polled))
        (λ found h. elim found as (λ k. Watching (found_or backend k next t).1) [
          | some signo ↦ (opened, polled)
          | none ↦
              let slept = source.sleeps s.watcher.poll_ms t.source polled in
              >>=-outcome (λ r v. Watching v) (on_source (sleep_ms s.watcher.poll_ms))
                (λ u. poll_rounds backend sleep_ms n) t (λ e k. (opened, slept))
                (λ u k. poll_rounds-Watching n _ (opened, slept))
        ])

  wait-Watching : (n : ℕ) (s : State S) → Watching s → Watching (wait backend sleep_ms n s).1
  unfolding wait
  wait-Watching n s h = go backend.wait refl
    where
      go :
          (w : Option (ℕ → Exec S (Option ℤ)))
          → backend.wait ≡ w
          → Watching (wait_by backend sleep_ms w n s).1
      go none e = poll_rounds-Watching n s h
      go (some w) e = (h.0, source.waits w e n s.source h.1)

  close_watcher-Shut : (s : State S) → Watching s → Shut (close_watcher backend s).1.source
  close_watcher-Shut s (opened, live) =
      let closed = source.closes s.source live in
      go s.watcher.is_open opened (
        >>=-outcome (λ r v. Shut v.source) (on_source backend.close) (λ u. put_open false) s
          (λ e h. closed) (λ u h. closed))
    where
      close_it : Exec (State S) (Unit {0})
      close_it = on_source backend.close >> put_open false

      go : (b : Bool) → b ≡ true → Shut (close_it s).1.source → Shut (when b close_it s).1.source
      go true e h = h
      go false e h = cc

  open_watcher-Opened :
      (s : State S)
      → Shut s.source
      → Opened Watching (λ v. Shut v.source) (open_watcher backend s).0 (open_watcher backend s).1
  open_watcher-Opened s shut =
      let result = source.opens s.source shut in
      >>=-outcome (Opened Watching (λ v. Shut v.source)) (on_source backend.open_up)
        (λ u. put_open true) s (λ e h. rw h at result) (λ u h. (refl, rw h at result))

  watch-Shut : (n : ℕ) (s : State S) → Shut s.source → Shut (watch backend sleep_ms n s).1.source
  watch-Shut n s shut =
      let result = open_watcher-Opened s shut in
      >>=-outcome (λ r v. Shut v.source) (open_watcher backend)
        (λ u. finally (wait backend sleep_ms n) (close_watcher backend)) s (λ e h. rw h at result)
        (λ u h. close_watcher-Shut _ (wait-Watching n _ (rw h at result)))

  -- Whatever the arguments and however the wait goes.
  pub wait_for_signals-Shut :
      (n : ℕ) (signals : Signals) (poll_ms : ℤ) (s : S)
      → Idle (signals_of signals) s
      → (Shut (wait_for_signals backend sleep_ms n signals poll_ms s).1)
        ⊎ (((e : Error) × (init (signals_of signals) poll_ms ≡ err e))
            × (wait_for_signals backend sleep_ms n signals poll_ms s).1 ≡ s)
  unfolding wait_for_signals
  wait_for_signals-Shut n signals poll_ms s idle =
      elim (Result-cases (init (signals_of signals) poll_ms)) [
        | inl (watcher, e) ↦ inl (
            rw e (
              watch-Shut n _ (
                source.creates watcher.signals s
                  (rw (signals-init (signals_of signals) poll_ms e) idle))))
        | inr (x, e) ↦ inr ((x, e), rw e refl)
      ]

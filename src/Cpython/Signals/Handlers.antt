-- ===== src/Cpython/Signals/Handlers.antt =====
-- The handlers that wait_for_signals of mpsystemd/signals.py leaves behind under CPython.
use mathlib.Core.Path.{subst}
use micropython_systemd.Prelude.{
  ℕ, zero, suc, ◌≡◌, inl, inr, refl, ap, ◌∙◌, Bool, true, false, if◌then◌else◌, Bool-cases, List,
  [], ◌∷◌, Option, none, some, ℤ, All,
}
use micropython_systemd.Errors.{ok, err, systemd_error, not_open}
use micropython_systemd.Exec.{Exec, ◌>>◌, >>=-outcome}
use micropython_systemd.Cpython.Signals.Keys.{
  without, remove_key-absent, remove_key-add_key, without-remove_key,
}
use micropython_systemd.Cpython.Signals.{
  State, Loop, has, add_key, remove_key, take_first, pending, or_clear, or_else, wait_round, wait,
  passed, install_all, open_source, remove_all, close_source, loop_backend,
}
use micropython_systemd.Signals.{Signals, signals_of, wait_for_signals}
use micropython_systemd.Signals.Ending.{IsSource, Opened, wait_for_signals-Shut}

-- What leaves the handlers, and what the source remembers of them, alone.
abbrev pub Keeps {ℓ} : {A : Type ℓ} → Exec State A → Type 0
Keeps m =
    (s : State)
    → ((m s).1.handlers ≡ s.handlers)
      × ((m s).1.source.installed ≡ s.source.installed)
      × ((m s).1.source.signals ≡ s.source.signals)

module _ (loop : Loop) (base : List ℤ) where
  -- A signal without a handler whose handler can be added.
  abbrev pub IsFree : ℤ → Type 0
  IsFree n = (has n base ≡ false) × ((hs : List ℤ) → loop.refusal hs n ≡ none)

  abbrev pub Idle : List ℤ → State → Type 0
  Idle signals s = (s.handlers ≡ base) × All IsFree signals

  abbrev pub Shut : State → Type 0
  Shut s = (s.handlers ≡ base) × (s.source.installed ≡ []) × All IsFree s.source.signals

  abbrev pub Live : State → Type 0
  Live s = (without s.source.installed s.handlers ≡ base) × All IsFree s.source.signals

  kept-Live : {A : Type 0} (m : Exec State A) → Keeps m → (s : State) → Live s → Live (m s).1
  kept-Live m keeps s (handlers, free) =
      let (same, installed, signals) = keeps s in rw (same, installed, signals) (handlers, free)

  pending-Live : (s : State) → Live s → Live (pending s).1
  unfolding pending
  pending-Live s h = go s.source.has_loop s.source.queue
    where
      go :
          (b : Bool) (q : List ℤ)
          → Live (if b then take_first q s else (err (systemd_error not_open), s)).1
      go false q = h
      go true [] = h
      go true (signo ∷ q) = h

  install_all-Live :
      (signals : List ℤ) (s : State)
      → All IsFree signals
      → Live s
      → (u : State) × (install_all loop signals s ≡ (ok tt, u)) × Live u
  unfolding install_all
  install_all-Live [] s free live = (s, refl, live)
  install_all-Live (n ∷ signals) s ((absent, accepted), free) (handlers, all) =
      let removed =
        ap (without s.source.installed) (remove_key-add_key n s.handlers)
        ∙ without-remove_key s.source.installed n s.handlers
        ∙ ap (remove_key n) handlers
        ∙ remove_key-absent n base absent in
      let t : State = record {
        source = record s.source { installed = n ∷ s.source.installed };
        handlers = add_key n s.handlers;
      } in
      let (u, e, live) = install_all-Live signals t free (removed, all) in
      (u, rw (accepted s.handlers) e, live)

  remove_all-without :
      (installed : List ℤ) (s : State)
      → ((hs : List ℤ) (n : ℤ) → passed (loop.complaint hs n) ≡ ok tt)
      → s.source.installed ≡ installed
      → (u : State) × (remove_all loop installed s ≡ (ok tt, u))
        × (u.handlers ≡ without installed s.handlers)
        × (u.source.installed ≡ [])
        × (u.source.signals ≡ s.source.signals)
  unfolding remove_all
  remove_all-without [] s caught e = (s, refl, refl, e, refl)
  remove_all-without (n ∷ installed) s caught e =
      let t : State = record {
        source = record s.source { installed = installed };
        handlers = remove_key n s.handlers;
      } in
      let (u, done, handlers, none_left, signals) = remove_all-without installed t caught refl in
      (u, rw (caught s.handlers n) done, handlers, none_left, signals)

  close_source-Shut :
      (s : State)
      → ((hs : List ℤ) (n : ℤ) → passed (loop.complaint hs n) ≡ ok tt)
      → Live s
      → Shut (close_source loop s).1
  unfolding close_source
  close_source-Shut s caught (handlers, free) =
      let (u, done, left, none_left, signals) =
        remove_all-without s.source.installed s caught refl in
      rw done (left ∙ handlers, none_left, rw signals free)

  open_source-Opened :
      (s : State) → Shut s → Opened Live Shut (open_source loop s).0 (open_source loop s).1
  unfolding open_source install_all
  open_source-Opened s (handlers, none_left, free) =
      let t : State = record s { source = record s.source { has_loop = true; event = false } } in
      let live : Live t = (rw none_left handlers, free) in
      let (u, done, opened) = install_all-Live s.source.signals t free live in
      elim (Bool-cases loop.running) [
        | inl p ↦ rw (p, done) opened
        | inr p ↦ rw p (handlers, none_left, free)
      ]

  wait_round-Live : (s : State) → Live s → Live (wait_round s).1
  unfolding wait_round
  wait_round-Live s live =
      let polled = pending-Live s live in
      >>=-outcome (λ r v. Live v) pending or_clear s (λ e h. polled)
        (λ found h. elim found as (λ k. Live (or_clear k (pending s).1).1) [
          | some signo ↦ polled
          | none ↦ polled
        ])

  wait-Live :
      (suspend : Exec State (Unit {0}))
      → Keeps suspend
      → (n : ℕ) (s : State) → Live s
      → Live (wait suspend n s).1
  unfolding wait
  wait-Live suspend keeps zero s live = live
  wait-Live suspend keeps (suc n) s live =
      let next : Exec State (Option ℤ) = suspend >> wait suspend n in
      let rounded = wait_round-Live s live in
      let t = (wait_round s).1 in
      >>=-outcome (λ r v. Live v) wait_round (λ found. or_else found next) s (λ e h. rounded)
        (λ found h. elim found as (λ k. Live (or_else k next t).1) [
          | some signo ↦ rounded
          | none ↦
              let slept = kept-Live suspend keeps t rounded in
              >>=-outcome (λ r v. Live v) suspend (λ u. wait suspend n) t (λ e k. slept)
                (λ u k. wait-Live suspend keeps n (suspend t).1 slept)
        ])

module _ (loop : Loop) (base : List ℤ) (suspend : Exec State (Unit {0}))
    (sleep_ms : ℤ → Exec State (Unit {0}))
    (caught : (hs : List ℤ) (n : ℤ) → passed (loop.complaint hs n) ≡ ok tt) (keeps : Keeps suspend)
    (sleeps : (ms : ℤ) → Keeps (sleep_ms ms)) where
  -- The wait of the backend is that of the source.
  given_wait : Option (ℕ → Exec State (Option ℤ)) → ℕ → Exec State (Option ℤ)
  given_wait none = wait suspend
  given_wait (some w) = w

  loop-IsSource :
      IsSource
        (loop_backend loop suspend)
        sleep_ms
        (Idle loop base)
        (Shut loop base)
        (Live loop base)
  unfolding given_wait
  loop-IsSource = record {
    creates = λ signals s idle. (idle.0, refl, idle.1);
    opens = open_source-Opened loop base;
    polls = pending-Live loop base;
    sleeps = λ ms. kept-Live loop base (sleep_ms ms) (sleeps ms);
    waits = λ w e n s live.
        subst (λ f. Live loop base (f n s).1) (ap given_wait e)
          (wait-Live loop base suspend keeps n s live);
    closes = λ s. close_source-Shut loop base s caught;
  }

  -- Under CPython, where the loop accepts a handler for each of the signals and none of them has
  -- one, where removing a handler raises at most the RuntimeError or ValueError that are caught,
  -- and where nothing else touches the handlers of the loop meanwhile: wait_for_signals leaves the
  -- loop the handlers that it had, whether it returns a signal, gives up or raises.
  pub handlers-wait_for_signals :
      (n : ℕ) (signals : Signals) (poll_ms : ℤ) (s : State)
      → s.handlers ≡ base
      → All (IsFree loop base) (signals_of signals)
      → (wait_for_signals (loop_backend loop suspend) sleep_ms n signals poll_ms s).1.handlers
        ≡ base
  handlers-wait_for_signals n signals poll_ms s before free =
      elim (wait_for_signals-Shut (loop_backend loop suspend) sleep_ms (Idle loop base)
        (Shut loop base) (Live loop base) loop-IsSource n signals poll_ms s (before, free)) [
          | inl (handlers, none_left, same) ↦ handlers
          | inr (raised, same) ↦ ap (λ t. t.handlers) same ∙ before
        ]

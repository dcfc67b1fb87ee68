-- ===== src/Native/Signals/Descriptors.antt =====
-- The descriptor of the class SignalSource of mpsystemd/_impl_mp.py, and of wait_for_signals over
-- it.
use micropython_systemd.Prelude.{
  ℕ, ◌≡◌, refl, ap, arith, ◌∙◌, true, List, [], ◌∷◌, Option, none, some, Bytes, ℤ, negsuc,
  is_negative, Bool-cases, inl, inr, if◌then◌else◌, replicate,
}
use micropython_systemd.Errors.{Result, ok, err}
use micropython_systemd.Exec.{Exec, ◌>>=◌, ◌>>◌, >>=-outcome}
use micropython_systemd.World.{
  M, Libc, sigemptyset, sigaddset, sigprocmask, signalfd, read, close, check_out, call_ignored,
  record_call,
}
use micropython_systemd.Native.Struct.{Abi}
use micropython_systemd.Native.Signals.{
  State, on_world, add_signals, open_fd, open_source, read_signal, pending, close_signalfd,
  restore_saved, restore_mask, close_source, sigset_size, sig_block, sig_setmask, signalfd_flags,
  signalfd_siginfo_size, put_saved,
}
use micropython_systemd.Descriptors.{Ledger, Owes, Owes-refl, Owes-trans, Keeps, >>=-Keeps}
use micropython_systemd.Descriptors.Rules.{
  in_world, from_world, call-Owes, check-got, check_out-Uses, close_ignored-Uses, pure-Uses,
}
use micropython_systemd.Descriptors.Sockets.{absorbs}

abbrev pub unless_closed : ℤ → List ℤ
unless_closed fd = if is_negative fd then [] else fd ∷ []

-- A source that is open holds its descriptor.
abbrev pub in_source : Ledger State
in_source = record { trace = λ s. s.world.trace; held = λ s. unless_closed s.source.fd }

module _ (abi : Abi) where
  -- What a step that does not touch the descriptor of the source leaves.
  abbrev Aside : State → State → Type 0
  Aside s t = Owes abi in_source [] s t [] × (t.source.fd ≡ s.source.fd)

  on_world-Aside :
      {A : Type 0} {m : M A} (s : State) → Keeps abi in_world m → Aside s (on_world m s).1
  on_world-Aside s p = (from_world abi in_source refl refl refl (p.owes s.world), refl)

  Aside-trans : {s t u : State} → Aside s t → Aside t u → Aside s u
  Aside-trans (p, e) (q, f) = (Owes-trans abi in_source p q, f ∙ e)

  module _ (libc : Libc) where
    add_signals-Keeps :
        (mask : Bytes) (signals : List ℤ) → Keeps abi in_world (add_signals libc mask signals)
    unfolding add_signals
    add_signals-Keeps mask [] = pure-Uses abi in_world mask [] refl
    add_signals-Keeps mask (signo ∷ signals) =
        >>=-Keeps abi in_world (check_out-Uses abi libc (sigaddset mask signo) [] (λ r. refl) refl)
          (λ mask'. add_signals-Keeps mask' signals)

    ignored-Keeps :
        (how : ℕ) (mask : Bytes) → Keeps abi in_world (call_ignored libc (sigprocmask how mask))
    ignored-Keeps how mask = record {
      owes = λ w. call-Owes abi libc (sigprocmask how mask) w [] [] (λ d. omega arith);
    }

    read_signal-Keeps : (fd : ℤ) → Keeps abi in_world (read_signal libc abi fd)
    read_signal-Keeps fd = record {
      owes = λ w. call-Owes abi libc (read fd signalfd_siginfo_size) w [] [] (λ d. omega arith);
    }

    -- An open source, with what it holds accounted for; a closed one.
    abbrev pub Live : State → State → Type 0
    Live s t = Owes abi in_source [] s t []

    abbrev pub Shut : State → State → Type 0
    Shut s t = Owes abi in_source [] s t [] × (is_negative t.source.fd ≡ true)

    abbrev pub Opening : State → Result (Unit {0}) → State → Type 0
    Opening s (ok u) t = Live s t
    Opening s (err e) t = Shut s t

    keep_fd-Opening :
        (mask saved : Bytes) (s : State)
        → is_negative s.source.fd ≡ true
        → Opening s (open_fd libc mask saved s).0 (open_fd libc mask saved s).1
    keep_fd-Opening mask saved s shut =
        let c = signalfd (negsuc 0) mask signalfd_flags in
        let p = (check-got abi libc c [] (λ r. refl) refl).owes s.world in
        elim (Bool-cases (is_negative (libc s.world.trace c).ret)) [
          | inl n ↦
              let v = record_call libc c s.world in
              let t : State = record s { world = v } in
              let failed : Owes abi in_source [] s t [] =
                from_world abi in_source {w = s.world} {v = v} refl refl refl (rw n at p) in
              rw n (
                Owes-trans abi in_source failed (
                    from_world abi in_source {w = v} refl refl refl
                      ((ignored-Keeps sig_setmask saved).owes v)),
                shut,
              )
          | inr n ↦
              let v = record_call libc c s.world in
              rw n
                (absorbs abi in_source {w = s.world} {v = v} refl refl (rw (shut, n) (rw n at p)))
        ]

    Opening-after :
        {s t : State}
        → Live s t
        → (r : Result (Unit {0})) (u : State) → Opening t r u
        → Opening s r u
    Opening-after p (ok v) u h = Owes-trans abi in_source p h
    Opening-after p (err e) u h = (Owes-trans abi in_source p h.0, h.1)

    -- A failure to open leaves the source closed.
    pub open_source-Opening :
        (s : State)
        → is_negative s.source.fd ≡ true
        → Opening s (open_source libc s).0 (open_source libc s).1
    unfolding open_source
    open_source-Opening s shut =
        let start = Owes-refl abi in_source [] s in
        chain s (check_out libc (sigemptyset (replicate sigset_size 0))) _ (start, refl)
          (check_out-Uses abi libc _ [] (λ r. refl) refl)
          λ empty t p.
            chain t (add_signals libc empty s.source.signals) _ p
              (add_signals-Keeps empty s.source.signals)
              λ mask u q.
                chain u (check_out libc (sigprocmask sig_block mask)) _ q
                  (check_out-Uses abi libc _ [] (λ r. refl) refl) λ saved v r. opens mask saved v r
      where
        opens :
            (mask saved : Bytes) (v : State)
            → Aside s v
            → Opening s
                ((put_saved (some saved) >> open_fd libc mask saved) v).0
                ((put_saved (some saved) >> open_fd libc mask saved) v).1
        opens mask saved v r =
            let t : State = record v { source = record v.source { saved = some saved } } in
            let kept : Live s t = Owes-trans abi in_source r.0 (record { accounts = λ d. refl }) in
            Opening-after kept (open_fd libc mask saved t).0 (open_fd libc mask saved t).1
              (keep_fd-Opening mask saved t (ap is_negative r.1 ∙ shut))

        chain :
            {A : Type 0} (t : State) (m : M A) (f : A → Exec State (Unit {0}))
            → Aside s t
            → Keeps abi in_world m
            → ((a : A) (u : State) → Aside s u → Opening s (f a u).0 (f a u).1)
            → Opening s ((on_world m >>= f) t).0 ((on_world m >>= f) t).1
        chain t m f p keeps next =
            let q = Aside-trans p (on_world-Aside t keeps) in
            >>=-outcome (Opening s) (on_world m) f t (λ e h. (q.0, ap is_negative q.1 ∙ shut))
              (λ a h. next a (on_world m t).1 q)

    pub pending-Live : (s t : State) → Live s t → Live s (pending libc abi t).1
    unfolding pending
    pending-Live s t p = elim (Bool-cases (is_negative t.source.fd)) [
      | inl n ↦ rw n p
      | inr n ↦
          rw n (Owes-trans abi in_source p (on_world-Aside t (read_signal-Keeps t.source.fd)).0)
    ]

    restore_saved-Shut :
        (s t : State) (saved : Option Bytes) → Shut s t → Shut s (restore_saved libc saved t).1
    restore_saved-Shut s t none p = p
    restore_saved-Shut s t (some saved) p =
        let q = (on_world-Aside t (ignored-Keeps sig_setmask saved)).0 in
        let u = (on_world (call_ignored libc (sigprocmask sig_setmask saved)) t).1 in
        let cleared : Live u (put_saved none u).1 = record { accounts = λ d. refl } in
        (Owes-trans abi in_source (Owes-trans abi in_source p.0 q) cleared, p.1)

    close_signalfd-Shut : (s t : State) → Live s t → Shut s (close_signalfd libc t).1
    close_signalfd-Shut s t p = elim (Bool-cases (is_negative t.source.fd)) [
      | inl n ↦ rw n (p, n)
      | inr n ↦
          let v = record_call libc (close t.source.fd) t.world in
          let u : State = record { source = record t.source { fd = negsuc 0 }; world = v } in
          let q = (close_ignored-Uses abi libc t.source.fd []).owes t.world in
          let closed : Live t u = absorbs abi in_source {w = t.world} {v = v} refl refl (rw n q) in
          rw n (Owes-trans abi in_source p closed, refl)
    ]

    pub close_source-Shut : (s t : State) → Live s t → Shut s (close_source libc t).1
    unfolding close_source
    close_source-Shut s t p =
        let q = close_signalfd-Shut s t p in
        >>=-outcome (λ r v. Shut s v) (close_signalfd libc) (λ u. restore_mask libc) t (λ e h. q)
          (λ u h. restore_saved-Shut s (close_signalfd libc t).1 _ q)

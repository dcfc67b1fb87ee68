-- ===== src/Native/Signals/Mask.antt =====
-- The signal mask of the thread under the calls of a signal source.
use micropython_systemd.Prelude.{
  ◌≡◌, refl, true, false, List, [], ◌∷◌, none, some, Bytes, ◌==◌, if◌then◌else◌, ℤ, negsuc,
  is_negative, Bool-cases, inl, inr, arith, ap, ◌∙◌, replicate,
}
use micropython_systemd.Errors.{Result, ok, err}
use micropython_systemd.Exec.{Exec, ◌>>=◌, ◌>>◌, >>=-outcome}
use micropython_systemd.World.{
  World, Libc, Call, Trace, sigprocmask, sigaddset, signalfd, sigemptyset, close, read, record_call,
  check_out,
}
use micropython_systemd.Native.Struct.{Abi}
use micropython_systemd.Native.Signals.{
  State, sig_block, sig_setmask, signalfd_flags, signalfd_siginfo_size, sigset_size, put_saved,
  on_world, open_fd, add_signals, open_source, pending, close_source,
}

-- A mask as it was set, or with more signals blocked.
pub data SignalMask : Type 0 where
  plain : Bytes → SignalMask
  blocked : SignalMask → Bytes → SignalMask

-- What a successful sigprocmask makes of the mask. No other call changes it.
abbrev pub masked : Call → SignalMask → SignalMask
masked (sigprocmask how set) mask =
    if how == sig_block then blocked mask set else if how == sig_setmask then plain set else mask
masked c mask = mask

-- The mask behind a trace that began under the mask `start`.
unfoldable pub mask_of : Bytes → Trace → SignalMask
mask_of start [] = plain start
mask_of start (e ∷ t) =
    let before = mask_of start t in if is_negative e.reply.ret then before else masked e.call before

-- A call that leaves the mask alone.
abbrev pub IsNeutral : Call → Type 0
IsNeutral c = (mask : SignalMask) → masked c mask ≡ mask

mask_of-record_call :
    (libc : Libc) (start : Bytes) (c : Call) (w : World)
    → IsNeutral c
    → mask_of start (record_call libc c w).trace ≡ mask_of start w.trace
unfolding mask_of
mask_of-record_call libc start c w neutral = ground (arith, neutral (mask_of start w.trace))

mask_of-failed :
    (libc : Libc) (start : Bytes) (c : Call) (w : World)
    → is_negative (libc w.trace c).ret ≡ true
    → mask_of start (record_call libc c w).trace ≡ mask_of start w.trace
unfolding mask_of
mask_of-failed libc start c w failed = rw failed refl

mask_of-add_signals :
    (libc : Libc) (start mask : Bytes) (signals : List ℤ) (w : World)
    → mask_of start (add_signals libc mask signals w).1.trace ≡ mask_of start w.trace
unfolding add_signals
mask_of-add_signals libc start mask [] w = refl
mask_of-add_signals libc start mask (signo ∷ signals) w =
    let c = sigaddset mask signo in
    let same = mask_of-record_call libc start c w (λ k. refl) in
    >>=-outcome (λ r v. mask_of start v.trace ≡ mask_of start w.trace) (check_out libc c)
      (λ mask'. add_signals libc mask' signals) w (λ e h. same)
      (λ mask' h. mask_of-add_signals libc start mask' signals (record_call libc c w) ∙ same)

-- The source is closed under the mask `start`, or open with that mask saved and more blocked.
abbrev pub Closed : Bytes → State → Type 0
Closed start s =
    (is_negative s.source.fd ≡ true)
    × (s.source.saved ≡ none)
    × (mask_of start s.world.trace ≡ plain start)

pub data Inv (start : Bytes) (s : State) : Type 0 where
  closed : Closed start s → Inv start s
  in_use :
      (mask : Bytes)
      → is_negative s.source.fd ≡ false
      → s.source.saved ≡ some start
      → mask_of start s.world.trace ≡ blocked (plain start) mask
      → Inv start s

-- What is left by an attempt to open: a failed one leaves the source closed.
abbrev pub Opening : Bytes → Result (Unit {0}) → State → Type 0
Opening start (ok u) s = Inv start s
Opening start (err e) s = Closed start s

-- What Linux documents of sigprocmask: on success it hands out the mask of before, and setting a
-- mask does not fail.
pub record IsKernel (libc : Libc) (start : Bytes) : Type 0 where
  pub hands_out :
      (t : Trace) (set : Bytes)
      → mask_of start t ≡ plain start
      → is_negative (libc t (sigprocmask sig_block set)).ret ≡ false
      → (libc t (sigprocmask sig_block set)).out ≡ start
  pub sets :
      (t : Trace) (set : Bytes) → is_negative (libc t (sigprocmask sig_setmask set)).ret ≡ false

module _ (libc : Libc) (start : Bytes) (kernel : IsKernel libc start) where
  -- Setting the mask.
  mask_of-set :
      (w : World) (set : Bytes)
      → mask_of start (record_call libc (sigprocmask sig_setmask set) w).trace ≡ plain set
  unfolding mask_of
  mask_of-set w set = rw (kernel.sets w.trace set) refl

  pub close_source-Closed : (s : State) → Inv start s → Closed start (close_source libc s).1
  unfolding close_source
  close_source-Closed s (closed (fd, saved, mask)) = rw (fd, saved) (fd, refl, mask)
  close_source-Closed s (in_use m fd saved mask) =
      rw (fd, saved) (refl, refl, mask_of-set (record_call libc (close s.source.fd) s.world) start)

  -- Blocking more signals, on success.
  mask_of-block :
      (w : World) (set : Bytes)
      → is_negative (libc w.trace (sigprocmask sig_block set)).ret ≡ false
      → mask_of start w.trace ≡ plain start
      → mask_of start (record_call libc (sigprocmask sig_block set) w).trace
        ≡ blocked (plain start) set
  unfolding mask_of
  mask_of-block w set good before = rw (good, before) refl

  open_fd-Opening :
      (set former : Bytes) (s : State)
      → former ≡ start
      → is_negative s.source.fd ≡ true
      → s.source.saved ≡ some former
      → mask_of start s.world.trace ≡ blocked (plain start) set
      → Opening start (open_fd libc set former s).0 (open_fd libc set former s).1
  open_fd-Opening set former s e fd saved mask =
      let c = signalfd (negsuc 0) set signalfd_flags in
      let same = mask_of-record_call libc start c s.world (λ k. refl) in
      elim (Bool-cases (is_negative (libc s.world.trace c).ret)) [
        | inl p ↦ rw p (fd, refl, mask_of-set (record_call libc c s.world) former ∙ ap plain e)
        | inr p ↦ rw p (in_use set p (saved ∙ ap some e) (same ∙ mask))
      ]

  -- The part of `open_source` behind the set of signals.
  abbrev blocking : Bytes → Exec State (Unit {0})
  blocking set = do
    saved ← on_world (check_out libc (sigprocmask sig_block set))
    put_saved (some saved)
    open_fd libc set saved

  blocking-Opening :
      (set : Bytes) (s : State)
      → is_negative s.source.fd ≡ true
      → s.source.saved ≡ none
      → mask_of start s.world.trace ≡ plain start
      → Opening start (blocking set s).0 (blocking set s).1
  blocking-Opening set s fd saved mask =
      let c = sigprocmask sig_block set in
      elim (Bool-cases (is_negative (libc s.world.trace c).ret)) [
        | inl p ↦ rw p (fd, saved, mask_of-failed libc start c s.world p ∙ mask)
        | inr p ↦
            let v = record_call libc c s.world in
            let former = (libc s.world.trace c).out in
            let t : State = record {
              source = record s.source { saved = some former };
              world = v;
            } in
            rw p (
              open_fd-Opening set former t (kernel.hands_out s.world.trace set mask p) fd refl
                (mask_of-block s.world set p mask))
      ]

  pub open_source-Opening :
      (s : State) → Closed start s → Opening start (open_source libc s).0 (open_source libc s).1
  unfolding open_source
  open_source-Opening s (fd, saved, mask) =
      let first = sigemptyset (replicate sigset_size 0) in
      let w₁ = record_call libc first s.world in
      let m₁ = mask_of-record_call libc start first s.world (λ k. refl) ∙ mask in
      >>=-outcome (Opening start) (on_world (check_out libc first)) _ s (λ e h. (fd, saved, m₁))
        (λ empty h.
          let add = add_signals libc empty s.source.signals in
          let w₂ = (add w₁).1 in
          let m₂ = mask_of-add_signals libc start empty s.source.signals w₁ ∙ m₁ in
          >>=-outcome (Opening start) (on_world add) _ (record s { world = w₁ })
            (λ e k. (fd, saved, m₂))
            (λ set k. blocking-Opening set (record s { world = w₂ }) fd saved m₂))

  pub pending-Inv : (abi : Abi) (s : State) → Inv start s → Inv start (pending libc abi s).1
  unfolding pending
  pending-Inv abi s (closed (fd, saved, mask)) = rw fd (closed (fd, saved, mask))
  pending-Inv abi s (in_use set fd saved mask) =
      let c = read s.source.fd signalfd_siginfo_size in
      rw fd (in_use set fd saved (mask_of-record_call libc start c s.world (λ k. refl) ∙ mask))

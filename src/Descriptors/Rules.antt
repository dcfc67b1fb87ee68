-- ===== src/Descriptors/Rules.antt =====
-- What the calls of libc do to the descriptors in hand.
use micropython_systemd.Prelude.{
  ◌+◌, ◌≡◌, refl, arith, List, [], ◌∷◌, ◌++◌, ℤ, is_negative, Bool-cases, inl, inr, ap, drop,
}
use micropython_systemd.Errors.{Error, Result, ok, err}
use micropython_systemd.Exec.{pure, raise, lift}
use micropython_systemd.World.{
  World, Libc, Call, Reply, check, check_out, call_ignored, record_call, close, pipe2,
}
use micropython_systemd.Native.{close_fd, pipe, o_cloexec}
use micropython_systemd.Native.Struct.{Abi, unpack_int}
use micropython_systemd.Descriptors.{
  count, count-append, unless_failed, given, taken_back, opens, closes, Ledger, Owes, Uses,
  Owes-refl,
}

-- What a successful call gave.
abbrev pub got : Result ℤ → List ℤ
got (ok fd) = fd ∷ []
got (err e) = []

abbrev pub got_pair : Result (ℤ × ℤ) → List ℤ
got_pair (ok p) = p.0 ∷ p.1 ∷ []
got_pair (err e) = []

-- The world by itself holds nothing.
abbrev pub in_world : Ledger World
in_world = record { trace = λ w. w.trace; held = λ w. [] }

module _ (abi : Abi) where
  -- A pure step.
  pub pure-Uses :
      {S A : Type 0} (l : Ledger S) (a : A) (before : List ℤ) {later : Result A → List ℤ}
      → later (ok a) ≡ before
      → Uses abi l (pure a) before later
  pure-Uses l a before same = record { owes = λ s. rw same (Owes-refl abi l before s) }

  pub raise-Uses :
      {S A : Type 0} (l : Ledger S) (e : Error) (before : List ℤ) {later : Result A → List ℤ}
      → later (err e) ≡ before
      → Uses abi l (raise e) before later
  raise-Uses l e before same = record { owes = λ s. rw same (Owes-refl abi l before s) }

  pub lift-Uses :
      {S A : Type 0} (l : Ledger S) (r : Result A) (kept : List ℤ)
      → Uses abi l (lift r) kept (λ x. kept)
  lift-Uses l r kept = record { owes = λ s. Owes-refl abi l kept s }

  -- From the world to a state that has one.
  pub from_world :
      {S : Type 0} (l : Ledger S) {before later : List ℤ} {s t : S} {w v : World}
      → l.trace s ≡ w.trace
      → l.trace t ≡ v.trace
      → l.held t ≡ l.held s
      → Owes abi in_world before w v later
      → Owes abi l before s t later
  from_world l {before} {later} {s} {t} first last same p = record {
    accounts = λ d. omega (
      arith,
      p.accounts d,
      count-append d before (l.held s),
      count-append d later (l.held t),
      count-append d before [],
      count-append d later [],
      ap (count d) same,
      ap (opens abi d) first,
      ap (opens abi d) last,
      ap (closes abi d) first,
      ap (closes abi d) last,
    );
  }

  module _ (libc : Libc) where
    -- One call, by the descriptors that it gives and takes.
    pub call-Owes :
        (c : Call) (w : World) (before later : List ℤ)
        → ((d : ℤ)
            → count d before + count d (given abi c (libc w.trace c))
              ≡ count d later + count d (taken_back abi c))
        → Owes abi in_world before w (record_call libc c w) later
    unfolding opens closes
    call-Owes c w before later balance = record {
      accounts = λ d. omega (arith, balance d, count-append d before [], count-append d later []);
    }

    -- A checked call that neither gives nor takes.
    pub check-Uses :
        (c : Call) (kept : List ℤ)
        → ((r : Reply) → given abi c r ≡ [])
        → taken_back abi c ≡ []
        → Uses abi in_world (check libc c) kept (λ r. kept)
    check-Uses c kept gives takes = record {
      owes = λ w.
          call-Owes c w kept kept
            λ d. omega (arith, ap (count d) (gives (libc w.trace c)), ap (count d) takes);
    }

    pub check_out-Uses :
        (c : Call) (kept : List ℤ)
        → ((r : Reply) → given abi c r ≡ [])
        → taken_back abi c ≡ []
        → Uses abi in_world (check_out libc c) kept (λ r. kept)
    check_out-Uses c kept gives takes = record {
      owes = λ w.
          call-Owes c w kept kept
            λ d. omega (arith, ap (count d) (gives (libc w.trace c)), ap (count d) takes);
    }

    -- A checked call that gives the descriptor that it returns.
    pub check-got :
        (c : Call) (kept : List ℤ)
        → ((r : Reply) → given abi c r ≡ unless_failed abi r (r.ret ∷ []))
        → taken_back abi c ≡ []
        → Uses abi in_world (check libc c) kept (λ r. got r ++ kept)
    check-got c kept gives takes = record {
      owes = λ w.
          let r = libc w.trace c in
          elim (Bool-cases (is_negative r.ret)) [
            | inl p ↦ rw p (
                call-Owes c w kept kept
                  λ d. omega (arith, ap (count d) (rw p at (gives r)), ap (count d) takes))
            | inr p ↦ rw p (
                call-Owes c w kept (r.ret ∷ kept)
                  λ d. omega (arith, ap (count d) (rw p at (gives r)), ap (count d) takes))
          ];
    }

    -- One of the descriptors in hand is closed.
    pub close_fd-Uses :
        (fd : ℤ) (before later : List ℤ)
        → ((d : ℤ) → count d before ≡ count d (fd ∷ []) + count d later)
        → Uses abi in_world (close_fd libc fd) before (λ r. later)
    close_fd-Uses fd before later balance = record {
      owes = λ w.
          let p = call-Owes (close fd) w before later (λ d. omega (arith, balance d)) in
          elim (Bool-cases (is_negative (libc w.trace (close fd)).ret)) [
            | inl e ↦ rw e p
            | inr e ↦ rw e p
          ];
    }

    pub close_ignored-Uses :
        (fd : ℤ) (kept : List ℤ)
        → Uses abi in_world (call_ignored libc (close fd)) (fd ∷ kept) (λ r. kept)
    close_ignored-Uses fd kept = record {
      owes = λ w. call-Owes (close fd) w (fd ∷ kept) kept (λ d. omega arith);
    }

    pub pipe-Uses :
        (kept : List ℤ) → Uses abi in_world (pipe libc abi) kept (λ r. got_pair r ++ kept)
    pipe-Uses kept = record {
      owes = λ w.
          let c = pipe2 o_cloexec in
          let r = libc w.trace c in
          let ends : List ℤ = unpack_int abi r.out ∷ unpack_int abi (drop 4 r.out) ∷ [] in
          elim (Bool-cases (is_negative r.ret)) [
            | inl p ↦ rw p (
                call-Owes c w kept kept
                  λ d. let e : given abi c r ≡ [] = rw p refl in omega (arith, ap (count d) e))
            | inr p ↦ rw p (
                call-Owes c w kept (ends ++ kept)
                  λ d. let e : given abi c r ≡ ends = rw p refl in omega (arith, ap (count d) e))
          ];
    }

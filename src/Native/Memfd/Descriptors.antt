-- ===== src/Native/Memfd/Descriptors.antt =====
-- The descriptor of memfd_sealed in mpsystemd/_impl_mp.py: handed out with the contents in it, or
-- closed again.
use micropython_systemd.Prelude.{
  ℕ, zero, suc, ◌≤◌, ◌≢◌, refl, ap, ◌∙◌, Bool, true, false, List, [], ◌∷◌, ◌++◌, Option, none, some,
  Bytes, length, drop, ℤ, pos, to_ℕ,
}
use micropython_systemd.Errors.{Result, ok, err, unsupported_error, no_memfd}
use micropython_systemd.Exec.{◌>>=◌, >>=-outcome}
use micropython_systemd.World.{World, Libc, Trace, write, fcntl, lseek, memfd_create}
use micropython_systemd.Native.Struct.{Abi}
use micropython_systemd.Native.Memfd.{
  write_all, seal, fill, memfd_sealed, memfd_flags, memfd_seals, f_add_seals,
}
use micropython_systemd.Native.Memfd.Contents.{write_all-ends}
use micropython_systemd.Descriptors.{Owes, Owes-trans, Uses, >>=-Uses, on_error-Uses, Uses-returns}
use micropython_systemd.Descriptors.Rules.{
  in_world, check-Uses, check-got, close_ignored-Uses, pure-Uses, raise-Uses,
}

-- The descriptor that an outcome hands out.
abbrev pub sealed : Result (Option ℤ) → List ℤ
sealed (ok (some fd)) = fd ∷ []
sealed (ok none) = []
sealed (err e) = []

-- The same, before a failure has closed it.
abbrev filled : ℤ → Result (Option ℤ) → List ℤ
filled fd (err e) = fd ∷ []
filled fd (ok (some f)) = f ∷ []
filled fd (ok none) = []

module _ (abi : Abi) (libc : Libc) where
  write_all-Uses :
      (fuel : ℕ) (fd : ℤ) (contents : Bytes) (kept : List ℤ)
      → Uses abi in_world (write_all libc fuel fd contents) kept (λ r. kept)
  unfolding write_all
  write_all-Uses zero fd [] kept = pure-Uses abi in_world (some tt) kept refl
  write_all-Uses (suc fuel) fd [] kept = pure-Uses abi in_world (some tt) kept refl
  write_all-Uses zero fd (b ∷ view) kept = pure-Uses abi in_world none kept refl
  write_all-Uses (suc fuel) fd (b ∷ view) kept =
      >>=-Uses abi in_world (check-Uses abi libc (write fd (b ∷ view)) kept (λ r. refl) refl)
        (λ n. write_all-Uses fuel fd (drop (to_ℕ n) (b ∷ view)) kept) (λ x. refl)

  seal-Uses : (fd : ℤ) → Uses abi in_world (seal libc fd (some tt)) (fd ∷ []) (filled fd)
  seal-Uses fd =
      >>=-Uses abi in_world
        (check-Uses abi libc (fcntl fd f_add_seals memfd_seals) (fd ∷ []) (λ r. refl) refl)
        (λ a.
          >>=-Uses abi in_world {mid = λ r. fd ∷ []}
            (check-Uses abi libc (lseek fd (pos 0) 0) (fd ∷ []) (λ r. refl) refl)
            (λ b. pure-Uses abi in_world (some fd) (fd ∷ []) refl) (λ x. refl))
        (λ x. refl)

  module _
      (progress : (t : Trace) (fd : ℤ) (b : ℕ) (view : Bytes)
        → (libc t (write fd (b ∷ view))).ret ≢ pos 0)
      (fuel : ℕ) (contents : Bytes) (enough : length contents ≤ fuel) where
    filled-Uses :
        (fd : ℤ)
        → Uses abi in_world (write_all libc fuel fd contents >>= seal libc fd) (fd ∷ []) (filled fd)
    filled-Uses fd = record {
      owes = λ w.
          let written = (write_all-Uses fuel fd contents (fd ∷ [])).owes w in
          let v = (write_all libc fuel fd contents w).1 in
          >>=-outcome (λ r u. Owes abi in_world (fd ∷ []) w u (filled fd r))
            (write_all libc fuel fd contents) (seal libc fd) w (λ e h. written)
            (λ done h. Owes-trans abi in_world written (
              seals fd v done λ d.
                write_all-ends libc fd (λ t. progress t fd) fuel contents w enough (h ∙ ap ok d)));
    }
      where
        seals :
            (fd : ℤ) (v : World) (done : Option (Unit {0}))
            → done ≢ none
            → Owes abi in_world
                (fd ∷ [])
                v
                (seal libc fd done v).1
                (filled fd (seal libc fd done v).0)
        seals fd v none h = absurd (h refl)
        seals fd v (some u) h = (seal-Uses fd).owes v

    fill-Uses : (fd : ℤ) → Uses abi in_world (fill libc fuel contents fd) (fd ∷ []) sealed
    fill-Uses fd =
        on_error-Uses abi in_world (filled-Uses fd) (λ a. elim a [ none ↦ refl | some f ↦ refl ])
          (λ e. Uses-returns abi in_world tt (λ w. refl) (close_ignored-Uses abi libc fd []))

    pub memfd_sealed-Uses :
        (has_memfd : Bool) (name : Bytes)
        → Uses abi in_world (memfd_sealed libc has_memfd fuel name contents) [] sealed
    unfolding memfd_sealed
    memfd_sealed-Uses false name = raise-Uses abi in_world (unsupported_error no_memfd) [] refl
    memfd_sealed-Uses true name =
        >>=-Uses abi in_world
          (check-got abi libc (memfd_create (name ++ 0 ∷ []) memfd_flags) [] (λ r. refl) refl)
          fill-Uses (λ x. refl)

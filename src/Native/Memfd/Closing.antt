-- ===== src/Native/Memfd/Closing.antt =====
-- The descriptor that memfd_sealed of mpsystemd/_impl_mp.py opens, when it cannot be filled.
use micropython_systemd.Prelude.{
  ℕ, ◌≤◌, ◌≡◌, ◌≢◌, refl, ap, ◌∙◌, true, false, List, [], ◌∷◌, ◌++◌, Option, none, some, Bytes,
  length, ℤ, pos, is_negative, Bool-cases, inl, inr,
}
use micropython_systemd.Errors.{Result, ok, err}
use micropython_systemd.Exec.{◌>>=◌, >>=-outcome, handle}
use micropython_systemd.World.{
  World, M, Libc, Call, Trace, calls, memfd_create, write, fcntl, lseek, close, call_ignored,
  record_call,
}
use micropython_systemd.Native.Memfd.{
  write_all, seal, fill, memfd_sealed, memfd_flags, memfd_seals, f_add_seals,
}
use micropython_systemd.Native.Memfd.Contents.{write_all-ends}

-- The latest call closes the descriptor.
abbrev pub JustClosed : ℤ → World → Type 0
JustClosed fd w = (before : List Call) × (calls w.trace ≡ close fd ∷ before)

-- A memfd that is sealed, or one that is closed again; and not a loop that is not done.
abbrev pub SealedOrClosed : ℤ → Result (Option ℤ) → World → Type 0
SealedOrClosed fd (err e) w = JustClosed fd w
SealedOrClosed fd (ok none) w = true ≡ false
SealedOrClosed fd (ok (some f)) w = f ≡ fd

abbrev Filled : ℤ → Result (Option ℤ) → World → Type 0
Filled fd (err e) w = Unit {0}
Filled fd (ok none) w = true ≡ false
Filled fd (ok (some f)) w = f ≡ fd

module _ (libc : Libc) (fd : ℤ)
    (progress : (t : Trace) (b : ℕ) (view : Bytes)
      → (libc t (write fd (b ∷ view))).ret ≢ pos 0) where
  seal-Filled :
      (w : World) (done : Option (Unit {0}))
      → done ≢ none
      → Filled fd (seal libc fd done w).0 (seal libc fd done w).1
  seal-Filled w none h = absurd (h refl)
  seal-Filled w (some u) h =
      let add = fcntl fd f_add_seals memfd_seals in
      let rewind = lseek fd (pos 0) 0 in
      let v = record_call libc add w in
      elim (Bool-cases (is_negative (libc w.trace add).ret)) [
        | inl p ↦ rw p tt
        | inr p ↦ elim (Bool-cases (is_negative (libc v.trace rewind).ret)) [
          | inl q ↦ rw (p, q) tt
          | inr q ↦ rw (p, q) refl
        ]
      ]

  fill-SealedOrClosed :
      (fuel : ℕ) (contents : Bytes) (w : World)
      → length contents ≤ fuel
      → SealedOrClosed fd (fill libc fuel contents fd w).0 (fill libc fuel contents fd w).1
  fill-SealedOrClosed fuel contents w enough =
      let body : M (Option ℤ) = write_all libc fuel fd contents >>= seal libc fd in
      let filled : Filled fd (body w).0 (body w).1 =
        >>=-outcome (Filled fd) (write_all libc fuel fd contents) (seal libc fd) w (λ e h. tt)
          (λ done h.
            seal-Filled (write_all libc fuel fd contents w).1 done
              (λ d. write_all-ends libc fd progress fuel contents w enough (h ∙ ap ok d))) in
      go (body w).0 (body w).1 filled
    where
      go :
          (r : Result (Option ℤ)) (v : World)
          → Filled fd r v
          → SealedOrClosed fd
              (handle r (call_ignored libc (close fd)) v).0
              (handle r (call_ignored libc (close fd)) v).1
      go (err e) v h = (calls v.trace, refl)
      go (ok none) v h = h
      go (ok (some f)) v h = h

module _ (libc : Libc) (name : Bytes) (w : World) where
  abbrev pub create_call : Call
  create_call = memfd_create (name ++ 0 ∷ []) memfd_flags

  -- The descriptor that memfd_create gives.
  abbrev pub created : ℤ
  created = (libc w.trace create_call).ret

  pub memfd_sealed-SealedOrClosed :
      (fuel : ℕ) (contents : Bytes)
      → ((t : Trace) (b : ℕ) (view : Bytes) → (libc t (write created (b ∷ view))).ret ≢ pos 0)
      → length contents ≤ fuel
      → is_negative created ≡ false
      → SealedOrClosed created
          (memfd_sealed libc true fuel name contents w).0
          (memfd_sealed libc true fuel name contents w).1
  unfolding memfd_sealed
  memfd_sealed-SealedOrClosed fuel contents progress enough valid = rw valid (
      fill-SealedOrClosed libc created progress fuel contents (record_call libc create_call w)
        enough)

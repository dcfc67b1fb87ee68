-- ===== src/Journal/Writer/Received/Memfd.antt =====
-- The memfd of a large entry: what its file holds, and that nothing is sent meanwhile.
use micropython_systemd.Prelude.{
  ℕ, zero, suc, ◌≡◌, refl, sym, ap, ◌∙◌, Bool, true, false, Bool-cases, inl, inr, List, [], ◌∷◌,
  ◌++◌, append_assoc, append-nil, Option, none, some, Bytes, take, drop, ℤ, pos, is_negative, to_ℕ,
  eq_ℤ-refl,
}
use micropython_systemd.Errors.{Result, ok, err}
use micropython_systemd.Exec.{◌>>=◌, >>=-outcome, handle}
use micropython_systemd.World.{
  World, M, Libc, memfd_create, write, fcntl, lseek, close, call_ignored, record_call,
}
use micropython_systemd.Native.Struct.{Abi}
use micropython_systemd.Native.Memfd.{
  write_all, seal, fill, memfd_sealed, memfd_flags, memfd_seals, f_add_seals,
}
use micropython_systemd.Native.Memfd.Contents.{take-drop}
use micropython_systemd.Journal.Writer.Received.{file_of, is_sealed, received}

module _ (abi : Abi) (sun : Bytes) where
  module _ (libc : Libc) where
    write_all-received :
        (fuel : ℕ) (fd : ℤ) (view : Bytes) (w : World)
        → received abi sun (write_all libc fuel fd view w).1.trace ≡ received abi sun w.trace
    unfolding write_all received
    write_all-received zero fd [] w = refl
    write_all-received (suc fuel) fd [] w = refl
    write_all-received zero fd (b ∷ view) w = refl
    write_all-received (suc fuel) fd (b ∷ view) w =
        let c = write fd (b ∷ view) in
        elim (Bool-cases (is_negative (libc w.trace c).ret)) [
          | inl p ↦ rw p refl
          | inr p ↦ rw p (
              write_all-received fuel fd (drop (to_ℕ (libc w.trace c).ret) (b ∷ view))
                (record_call libc c w))
        ]

    -- A loop that is done has put all the bytes behind those that were there.
    write_all-file :
        (fuel : ℕ) (fd : ℤ) (view : Bytes) (w : World)
        → (write_all libc fuel fd view w).0 ≡ ok (some tt)
        → file_of fd (write_all libc fuel fd view w).1.trace ≡ file_of fd w.trace ++ view
    unfolding write_all file_of
    write_all-file fuel fd [] w h = sym (append-nil (file_of fd w.trace))
    write_all-file zero fd (b ∷ view) w h = cc
    write_all-file (suc fuel) fd (b ∷ view) w h =
        let c = write fd (b ∷ view) in
        let n = to_ℕ (libc w.trace c).ret in
        elim (Bool-cases (is_negative (libc w.trace c).ret)) [
          | inl p ↦ cc (rw p at h)
          | inr p ↦
              let ih =
                write_all-file fuel fd (drop n (b ∷ view)) (record_call libc c w) (rw p at h) in
              rw p (
                ih
                ∙ rw (eq_ℤ-refl fd) (
                    append_assoc (file_of fd w.trace) (take n (b ∷ view)) (drop n (b ∷ view))
                    ∙ ap (λ z. file_of fd w.trace ++ z) (take-drop n (b ∷ view))))
        ]

-- A memfd that is handed out holds the contents and is sealed.
abbrev pub HasFile : Bytes → ℤ → Result (Option ℤ) → World → Type 0
HasFile contents fd (ok (some f)) w =
    (f ≡ fd) × (file_of fd w.trace ≡ contents) × (is_sealed fd w.trace ≡ true)
HasFile contents fd r w = Unit {0}

module _ (abi : Abi) (sun : Bytes) (libc : Libc) (contents : Bytes) (fd : ℤ)
    (entries : List Bytes) where
  abbrev Ready : Result (Option ℤ) → World → Type 0
  Ready r w = (received abi sun w.trace ≡ entries) × HasFile contents fd r w

  seal-Ready :
      (w : World) (done : Option (Unit {0}))
      → received abi sun w.trace ≡ entries
      → (done ≡ some tt → file_of fd w.trace ≡ contents)
      → Ready (seal libc fd done w).0 (seal libc fd done w).1
  unfolding received file_of is_sealed
  seal-Ready w none e h = (e, tt)
  seal-Ready w (some u) e h =
      let add = fcntl fd f_add_seals memfd_seals in
      let rewind = lseek fd (pos 0) 0 in
      let v = record_call libc add w in
      elim (Bool-cases (is_negative (libc w.trace add).ret)) [
        | inl p ↦ rw p (e, tt)
        | inr p ↦ elim (Bool-cases (is_negative (libc v.trace rewind).ret)) [
          | inl q ↦ rw (p, q) (e, tt)
          | inr q ↦ rw (p, q) (e, (refl, h refl, rw (eq_ℤ-refl fd, p) refl))
        ]
      ]

  filled-Ready :
      (fuel : ℕ) (w : World)
      → received abi sun w.trace ≡ entries
      → file_of fd w.trace ≡ []
      → Ready
          ((write_all libc fuel fd contents >>= seal libc fd) w).0
          ((write_all libc fuel fd contents >>= seal libc fd) w).1
  filled-Ready fuel w e empty =
      let same = write_all-received abi sun libc fuel fd contents w ∙ e in
      >>=-outcome Ready (write_all libc fuel fd contents) (seal libc fd) w (λ x h. (same, tt))
        (λ done h. seal-Ready (write_all libc fuel fd contents w).1 done same λ all.
          write_all-file abi sun libc fuel fd contents w (h ∙ ap ok all)
          ∙ ap (λ z. z ++ contents) empty)

  fill-Ready :
      (fuel : ℕ) (w : World)
      → received abi sun w.trace ≡ entries
      → file_of fd w.trace ≡ []
      → Ready (fill libc fuel contents fd w).0 (fill libc fuel contents fd w).1
  unfolding received
  fill-Ready fuel w e empty =
      let body : M (Option ℤ) = write_all libc fuel fd contents >>= seal libc fd in
      go (body w).0 (body w).1 (filled-Ready fuel w e empty)
    where
      go :
          (r : Result (Option ℤ)) (v : World)
          → Ready r v
          → Ready
              (handle r (call_ignored libc (close fd)) v).0
              (handle r (call_ignored libc (close fd)) v).1
      go (err x) v (same, h) = (same, tt)
      go (ok handed) v h = h

module _ (abi : Abi) (sun : Bytes) (libc : Libc) (fuel : ℕ) (name contents : Bytes)
    (w : World) where
  abbrev pub created : ℤ
  created = (libc w.trace (memfd_create (name ++ 0 ∷ []) memfd_flags)).ret

  -- memfd_sealed sends nothing, and the file that it hands out holds the contents and is sealed.
  pub memfd_sealed-HasFile :
      (has_memfd : Bool)
      → (received abi sun (memfd_sealed libc has_memfd fuel name contents w).1.trace
          ≡ received abi sun w.trace)
        × HasFile contents created
            (memfd_sealed libc has_memfd fuel name contents w).0
            (memfd_sealed libc has_memfd fuel name contents w).1
  unfolding memfd_sealed received file_of
  memfd_sealed-HasFile false = (refl, tt)
  memfd_sealed-HasFile true =
      let c = memfd_create (name ++ 0 ∷ []) memfd_flags in
      elim (Bool-cases (is_negative created)) [
        | inl p ↦ rw p (refl, tt)
        | inr p ↦
            let empty : file_of created (record_call libc c w).trace ≡ [] =
              rw (eq_ℤ-refl created) refl in
            rw p (
              fill-Ready abi sun libc contents created (received abi sun w.trace) fuel
                (record_call libc c w) refl empty)
      ]

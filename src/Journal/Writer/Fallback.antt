-- ===== src/Journal/Writer/Fallback.antt =====
-- An entry of mpsystemd/journal.py that is too large for a datagram, and the memfd it goes in.
use micropython_systemd.Prelude.{
  ℕ, ◌≤◌, ◌≡◌, ◌≢◌, ap, true, false, ◌∷◌, Option, none, some, Bytes, codes, length, ℤ, pos,
  is_negative, Bool-cases, inl, inr,
}
use micropython_systemd.Errors.{Error, Result, ok, err}
use micropython_systemd.Exec.{continue, finally, pure, >>=-outcome}
use micropython_systemd.World.{Libc, Trace, calls, write, close}
use micropython_systemd.Native.{close_fd}
use micropython_systemd.Native.Struct.{Abi}
use micropython_systemd.Native.Sockets.{UnixDatagram}
use micropython_systemd.Native.Memfd.{memfd_sealed}
use micropython_systemd.Native.Memfd.Closing.{
  JustClosed, SealedOrClosed, created, memfd_sealed-SealedOrClosed,
}
use micropython_systemd.Journal.Writer.{
  W, send_memfd, State, on_world, pass_memfd, fall_back, is_too_large,
}

module _ (abi : Abi) (libc : Libc) (fuel : ℕ) (sock : UnixDatagram) (body : Bytes) where
  abbrev name : Bytes
  name = codes "mpsystemd-journal"

  close_fd-JustClosed :
      (fd f : ℤ) (s : State) → f ≡ fd → JustClosed fd (on_world (close_fd libc f) s).1.world
  close_fd-JustClosed fd f s e =
      let same : close f ∷ calls s.world.trace ≡ close fd ∷ calls s.world.trace =
        ap (λ g. close g ∷ calls s.world.trace) e in
      elim (Bool-cases (is_negative (libc s.world.trace (close f)).ret)) [
        | inl p ↦ rw p (calls s.world.trace, same)
        | inr p ↦ rw p (calls s.world.trace, same)
      ]

  pass_memfd-JustClosed :
      (fd f : ℤ) (s : State)
      → f ≡ fd
      → JustClosed fd (pass_memfd abi libc true fuel sock (some f) s).1.world
  pass_memfd-JustClosed fd f s e =
      let sends : W (Unit {0}) = send_memfd abi libc true fuel sock f in
      let closed = close_fd-JustClosed fd f (sends s).1 e in
      >>=-outcome (λ r v. JustClosed fd v.world) (finally sends (on_world (close_fd libc f)))
        (λ u. pure (some true)) s (λ x h. closed) (λ u h. closed)

  sealed-JustClosed :
      (fd : ℤ) (r : Result (Option ℤ)) (s : State)
      → SealedOrClosed fd r s.world
      → JustClosed fd (continue r (pass_memfd abi libc true fuel sock) s).1.world
  sealed-JustClosed fd (err e) s h = h
  sealed-JustClosed fd (ok none) s h = cc
  sealed-JustClosed fd (ok (some f)) s h = pass_memfd-JustClosed fd f s h

  -- When sendto fails with EMSGSIZE or ENOBUFS and memfd_create gives a descriptor, where write
  -- never returns 0 for it and the rounds are as many as the bytes: whatever the other calls
  -- answer, the last call is the close of that descriptor, whether the entry was sent or an
  -- exception is raised.
  pub fall_back-JustClosed :
      (e : Error) (s : State)
      → is_too_large e ≡ true
      → is_negative (created libc name s.world) ≡ false
      → ((t : Trace) (b : ℕ) (view : Bytes)
          → (libc t (write (created libc name s.world) (b ∷ view))).ret ≢ pos 0)
      → length body ≤ fuel
      → JustClosed
          (created libc name s.world)
          (fall_back abi libc true fuel sock body (err e) s).1.world
  fall_back-JustClosed e s too_large valid progress enough = rw too_large (
      sealed-JustClosed (created libc name s.world)
        (memfd_sealed libc true fuel name body s.world).0
        (record s { world = (memfd_sealed libc true fuel name body s.world).1 })
        (memfd_sealed-SealedOrClosed libc name s.world fuel body progress enough valid))

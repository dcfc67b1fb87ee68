-- ===== src/Journal/Writer/Received/Decided.antt =====
-- That send_raw of mpsystemd/journal.py comes to an end: with as many rounds as there are bytes it
-- returns True or raises.
use micropython_systemd.Prelude.{
  ℕ, ◌≤◌, ◌≡◌, ◌≢◌, Bool, true, false, Bool-cases, inl, inr, Option, none, some, Bytes, codes,
  length, ℤ, pos, is_negative, ◌∷◌, refl, ap, ◌∙◌,
}
use micropython_systemd.Errors.{Result, ok, err, Error}
use micropython_systemd.Exec.{pure, >>=-outcome, finally}
use micropython_systemd.World.{World, Libc, Trace, write}
use micropython_systemd.Native.{close_fd}
use micropython_systemd.Native.Struct.{Abi}
use micropython_systemd.Native.Sockets.{UnixDatagram, send}
use micropython_systemd.Native.Memfd.{memfd_sealed}
use micropython_systemd.Native.Memfd.Closing.{SealedOrClosed, created, memfd_sealed-SealedOrClosed}
use micropython_systemd.Journal.Writer.{
  W, State, on_world, get_socket, send_memfd, pass_memfd, fall_back, is_too_large, send_raw,
}

abbrev pub Decided : {A : Type 0} → Result (Option A) → Type 0
Decided r = r ≢ ok none

pub err-Decided : {A : Type 0} (e : Error) → Decided {A = A} (err e)
err-Decided e h = cc

-- A call that returns True or raises.
abbrev pub Answers : Result (Option Bool) → Type 0
Answers (ok (some b)) = b ≡ true
Answers (ok none) = true ≡ false
Answers (err e) = Unit {0}

some-Decided : {A : Type 0} (a : A) → Decided (ok (some a))
some-Decided a h = cc

module _ (libc : Libc)
    (progress : (t : Trace) (fd : ℤ) (b : ℕ) (view : Bytes)
      → (libc t (write fd (b ∷ view))).ret ≢ pos 0)
    (fuel : ℕ) (body : Bytes) (enough : length body ≤ fuel) where
  SealedOrClosed-Decided :
      (fd : ℤ) (r : Result (Option ℤ)) (w : World) → SealedOrClosed fd r w → Decided r
  SealedOrClosed-Decided fd (err e) w h = err-Decided e
  SealedOrClosed-Decided fd (ok none) w h = cc
  SealedOrClosed-Decided fd (ok (some f)) w h = some-Decided f

  memfd_sealed-Decided :
      (has_memfd : Bool) (name : Bytes) (w : World)
      → Decided (memfd_sealed libc has_memfd fuel name body w).0
  unfolding memfd_sealed
  memfd_sealed-Decided false name w = err-Decided _
  memfd_sealed-Decided true name w = elim (Bool-cases (is_negative (created libc name w))) [
    | inl p ↦ rw p (err-Decided _)
    | inr p ↦ SealedOrClosed-Decided (created libc name w) _ _ (
        memfd_sealed-SealedOrClosed libc name w fuel body
          (λ t b view. progress t (created libc name w) b view) enough p)
  ]

  module _ (abi : Abi) (has_memfd : Bool) where
    pass_memfd-Answers :
        (sock : UnixDatagram) (f : ℤ) (s : State)
        → Answers (pass_memfd abi libc has_memfd fuel sock (some f) s).0
    pass_memfd-Answers sock f s =
        >>=-outcome (λ r v. Answers r)
          (finally (send_memfd abi libc has_memfd fuel sock f) (on_world (close_fd libc f)))
          (λ u. pure (some true)) s (λ e h. tt) (λ u h. refl)

    fall_back-Answers :
        (sock : UnixDatagram) (r : Result ℤ) (s : State)
        → Answers (fall_back abi libc has_memfd fuel sock body r s).0
    fall_back-Answers sock (ok n) s = refl
    fall_back-Answers sock (err e) s = elim (Bool-cases (is_too_large e)) [
      | inl large ↦
          let name = codes "mpsystemd-journal" in
          let ends = memfd_sealed-Decided has_memfd name s.world in
          let makes : W (Option ℤ) = on_world (memfd_sealed libc has_memfd fuel name body) in
          rw large (
            >>=-outcome (λ r v. Answers r) makes (pass_memfd abi libc has_memfd fuel sock) s
              (λ x h. tt)
              (λ handed h. passes handed (makes s).1 (λ none_left. ends (h ∙ ap ok none_left))))
      | inr small ↦ rw small tt
    ]
      where
        passes :
            (handed : Option ℤ) (v : State)
            → handed ≢ none
            → Answers (pass_memfd abi libc has_memfd fuel sock handed v).0
        passes none v some_left = absurd (some_left refl)
        passes (some f) v some_left = pass_memfd-Answers sock f v

    pub send_raw-Answers : (s : State) → Answers (send_raw abi libc has_memfd fuel body s).0
    unfolding send_raw
    send_raw-Answers s =
        let next : UnixDatagram → W (Option Bool) = λ sock t.
          let (r, u) = on_world (send abi libc sock body) t in
          fall_back abi libc has_memfd fuel sock body r u in
        >>=-outcome (λ r v. Answers r) (get_socket abi libc has_memfd fuel) next s (λ x h. tt)
          (λ sock h.
            let t = (get_socket abi libc has_memfd fuel s).1 in
            fall_back-Answers sock (on_world (send abi libc sock body) t).0 _)

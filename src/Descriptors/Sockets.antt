-- ===== src/Descriptors/Sockets.antt =====
-- What the methods of UnixDatagram in mpsystemd/_impl_mp.py do to the descriptors in hand.
use micropython_systemd.Prelude.{
  ℕ, ◌≡◌, refl, arith, List, [], ◌∷◌, ℤ, is_negative, Bool-cases, inl, inr, ap, Option, none, some,
  Bytes, if◌then◌else◌, ltb, length,
}
use micropython_systemd.Errors.{Result, ok, err, systemd_error, value_error, no_peer, too_many}
use micropython_systemd.World.{World, Libc, socket}
use micropython_systemd.Native.Struct.{Abi}
use micropython_systemd.Native.Ancillary.{max_fds_per_message}
use micropython_systemd.Native.Sockets.{
  UnixDatagram, af_unix, datagram_type, open_datagram, send_to, send, send_rights, send_with_fds,
  close_datagram, closed_fd,
}
use micropython_systemd.Descriptors.{count-append, opens, closes, Ledger, Owes, Uses, >>=-Uses}
use micropython_systemd.Descriptors.Rules.{
  in_world, check-Uses, check-got, close_ignored-Uses, pure-Uses, lift-Uses,
}

-- The descriptor of a socket that is not closed.
abbrev pub owned : Option UnixDatagram → List ℤ
owned none = []
owned (some sock) = if is_negative sock.fd then [] else sock.fd ∷ []

abbrev pub owned_of : Result UnixDatagram → List ℤ
owned_of (ok sock) = owned (some sock)
owned_of (err e) = []

module _ (abi : Abi) where
  -- Descriptors in hand that an object takes into itself, or gives out of itself.
  pub absorbs :
      {S : Type 0} (l : Ledger S) {s t : S} {w v : World}
      → l.trace s ≡ w.trace
      → l.trace t ≡ v.trace
      → Owes abi in_world (l.held s) w v (l.held t)
      → Owes abi l [] s t []
  absorbs l {s} {t} first last p = record {
    accounts = λ d. omega (
      arith,
      p.accounts d,
      count-append d (l.held s) [],
      count-append d (l.held t) [],
      ap (opens abi d) first,
      ap (opens abi d) last,
      ap (closes abi d) first,
      ap (closes abi d) last,
    );
  }

  module _ (libc : Libc) where
    pub open_datagram-Uses :
        (peer : Option Bytes) → Uses abi in_world (open_datagram abi libc peer) [] (λ r. owned_of r)
    unfolding open_datagram
    open_datagram-Uses peer = record {
      owes = λ w.
          let c = socket af_unix datagram_type 0 in
          let p = (check-got abi libc c [] (λ r. refl) refl).owes w in
          elim (Bool-cases (is_negative (libc w.trace c).ret)) [
            | inl e ↦ rw e (rw e at p)
            | inr e ↦ rw e (rw e (rw e at p))
          ];
    }

    send_to-Uses :
        (fd : ℤ) (peer : Option (Bytes × ℕ)) (contents : Bytes) (kept : List ℤ)
        → Uses abi in_world (send_to abi libc fd peer contents) kept (λ r. kept)
    send_to-Uses fd none contents kept = lift-Uses abi in_world (err (systemd_error no_peer)) kept
    send_to-Uses fd (some (name, namelen)) contents kept =
        check-Uses abi libc _ kept (λ r. refl) refl

    pub send-Uses :
        (sock : UnixDatagram) (contents : Bytes) (kept : List ℤ)
        → Uses abi in_world (send abi libc sock contents) kept (λ r. kept)
    unfolding send
    send-Uses sock contents kept = send_to-Uses sock.fd sock.peer contents kept

    send_rights-Uses :
        (fd : ℤ) (peer : Option (Bytes × ℕ)) (contents : Bytes) (fds kept : List ℤ)
        → Uses abi in_world (send_rights abi libc fd peer contents fds) kept (λ r. kept)
    send_rights-Uses fd none contents fds kept =
        lift-Uses abi in_world (err (systemd_error no_peer)) kept
    send_rights-Uses fd (some p) contents [] kept = send_to-Uses fd (some p) contents kept
    send_rights-Uses fd (some (name, namelen)) contents (f ∷ fds) kept =
        elim (Bool-cases (ltb max_fds_per_message (length (f ∷ fds)))) [
          | inl e ↦ rw e (lift-Uses abi in_world (err (value_error too_many)) kept)
          | inr e ↦ rw e (check-Uses abi libc _ kept (λ r. refl) refl)
        ]

    pub send_with_fds-Uses :
        (sock : UnixDatagram) (contents : Bytes) (fds kept : List ℤ)
        → Uses abi in_world (send_with_fds abi libc sock contents fds) kept (λ r. kept)
    unfolding send_with_fds
    send_with_fds-Uses sock contents fds kept = send_rights-Uses sock.fd sock.peer contents fds kept

    pub close_datagram-Uses :
        (sock : UnixDatagram)
        → Uses abi in_world (close_datagram abi libc sock) (owned (some sock)) (λ r. [])
    unfolding close_datagram
    close_datagram-Uses sock = elim (Bool-cases (is_negative sock.fd)) [
      | inl e ↦ rw e (pure-Uses abi in_world sock [] refl)
      | inr e ↦ rw e (
          >>=-Uses abi in_world (close_ignored-Uses abi libc sock.fd [])
            (λ u. pure-Uses abi in_world (record sock { fd = closed_fd }) [] refl) (λ x. refl))
    ]

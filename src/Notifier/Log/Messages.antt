-- ===== src/Notifier/Log/Messages.antt =====
-- One call of send_raw of mpsystemd/daemon.py, by the datagrams that go to the path of its
-- Notifier.
use mathlib.Core.Path.{subst}
use micropython_systemd.Prelude.{
  ℕ, ◌*◌, ◌≤◌, ◌≡◌, refl, sym, ap, ◌∙◌, arith, Bool, true, false, Bool-cases, inl, inr, List, [],
  ◌∷◌, ◌++◌, append-nil, Option, none, some, Bytes, length, ltb, All, ℤ, is_negative,
}
use micropython_systemd.Errors.{Result, ok, err}
use micropython_systemd.Exec.{pure, ◌>>◌, >>=-outcome, continue}
use micropython_systemd.World.{World, Libc, Message, socket, sendto, sendmsg}
use micropython_systemd.Utf8.{raw}
use micropython_systemd.Datagram.{Datagram}
use micropython_systemd.Native.Struct.{Abi}
use micropython_systemd.Native.Struct.Laws.{IsInt}
use micropython_systemd.Native.Ancillary.{scm_rights, parse_scm_rights, max_fds_per_message}
use micropython_systemd.Native.Ancillary.Layout.{IsAbi, cmsg_align_lem}
use micropython_systemd.Native.Ancillary.RoundTrip.{parse_scm_rights-scm_rights}
use micropython_systemd.Native.Receiving.RoundTrip.{length-scm_rights}
use micropython_systemd.Native.Sockets.Named.{is_addressed-sockaddr_un, Aimed}
use micropython_systemd.Native.Sockets.{
  sockaddr_un, UnixDatagram, af_unix, datagram_type, open_datagram, send, send_to, send_with_fds,
  send_rights, msg_nosignal,
}
use micropython_systemd.Notifier.{State, N, ensure_sock, deliver, send_at, send_raw}
use micropython_systemd.Notifier.Log.{delivered, posted}

-- A Notifier of a path: its socket, where it has one, goes there.
pub record Aims (abi : Abi) (sun : Bytes) (s : State) : Type 0 where
  pub path : s.notifier.sun_path ≡ some sun
  pub aimed : Aimed abi sun s.notifier.sock

module _ (abi : Abi) (is_abi : IsAbi abi) where
  passed :
      (fds : List ℤ)
      → length fds ≤ 253
      → All IsInt fds
      → parse_scm_rights abi (scm_rights abi fds) (length (scm_rights abi fds)) ≡ fds
  passed fds few ints =
      let control = scm_rights abi fds in
      let (_, larger, _) = cmsg_align_lem abi (4 * length fds) is_abi in
      ap (λ c. parse_scm_rights abi c (length control)) (sym (append-nil control))
      ∙ parse_scm_rights-scm_rights abi fds [] (length control) is_abi few ints
          (omega (arith, length-scm_rights abi fds is_abi, larger))

  few_enough : (n : ℕ) → ltb max_fds_per_message n ≡ false → n ≤ 253
  few_enough n p = ground arith

  module _ (libc : Libc) (sun : Bytes) where
    -- What the outcome of a send adds.
    abbrev by_send : Datagram → Result ℤ → List Datagram → List Datagram
    by_send d (ok n) datagrams = datagrams ++ d ∷ []
    by_send d (err e) datagrams = datagrams

    abbrev peer : Option (Bytes × ℕ)
    peer = some (sockaddr_un abi sun)

    send_to-delivered :
        (to : ℤ) (contents : Bytes) (w : World)
        → delivered abi sun (send_to abi libc to peer contents w).1.trace
          ≡ by_send
              (record { contents = contents; fds = [] })
              (send_to abi libc to peer contents w).0
              (delivered abi sun w.trace)
    unfolding delivered
    send_to-delivered to contents w =
        let (name, namelen) = sockaddr_un abi sun in
        elim (Bool-cases
          (is_negative (libc w.trace (sendto to contents msg_nosignal name namelen)).ret)) [
            | inl p ↦ rw p refl
            | inr p ↦ rw (p, is_addressed-sockaddr_un abi sun) refl
          ]

    send_rights-delivered :
        (to : ℤ) (contents : Bytes) (f : ℤ) (fds : List ℤ) (w : World)
        → All IsInt (f ∷ fds)
        → delivered abi sun (send_rights abi libc to peer contents (f ∷ fds) w).1.trace
          ≡ by_send
              (record { contents = contents; fds = f ∷ fds })
              (send_rights abi libc to peer contents (f ∷ fds) w).0
              (delivered abi sun w.trace)
    unfolding delivered
    send_rights-delivered to contents f fds w ints =
        let message : Message = record {
          name = (sockaddr_un abi sun).0;
          namelen = (sockaddr_un abi sun).1;
          payload = contents;
          control = scm_rights abi (f ∷ fds);
        } in
        elim (Bool-cases (ltb max_fds_per_message (length (f ∷ fds)))) [
          | inl p ↦ rw p refl
          | inr p ↦
              elim (Bool-cases (is_negative (libc w.trace (sendmsg to message msg_nosignal)).ret)) [
                | inl q ↦ rw p (rw q refl)
                | inr q ↦
                    let all = passed (f ∷ fds) (few_enough (length (f ∷ fds)) p) ints in
                    rw p (rw q (rw (is_addressed-sockaddr_un abi sun, all) refl))
              ]
        ]

    deliver-delivered :
        (sock : UnixDatagram) (contents : Bytes) (fds : List ℤ) (s : State)
        → All IsInt fds
        → sock.peer ≡ peer
        → delivered abi sun (deliver abi libc sock contents fds s).1.world.trace
          ≡ by_send
              (record { contents = contents; fds = fds })
              (deliver abi libc sock contents fds s).0
              (delivered abi sun s.world.trace)
    unfolding deliver send send_with_fds
    deliver-delivered sock contents [] s ints to_peer =
        rw to_peer (send_to-delivered sock.fd contents s.world)
    deliver-delivered sock contents (f ∷ fds) s ints to_peer =
        rw to_peer (send_rights-delivered sock.fd contents f fds s.world ints)

    -- Sending leaves the object.
    deliver-Aims :
        (sock : UnixDatagram) (contents : Bytes) (fds : List ℤ) (s : State)
        → Aims abi sun s
        → Aims abi sun (deliver abi libc sock contents fds s).1
    unfolding deliver
    deliver-Aims sock contents [] s a = record { path = a.path; aimed = a.aimed }
    deliver-Aims sock contents (f ∷ fds) s a = record { path = a.path; aimed = a.aimed }

    -- Finding the socket delivers nothing, and it goes to the path.
    pub record Found (s t : State) (r : Result UnixDatagram) : Type 0 where
      pub quiet : delivered abi sun t.world.trace ≡ delivered abi sun s.world.trace
      pub aims : Aims abi sun t
      pub to_peer : (sock : UnixDatagram) → r ≡ ok sock → sock.peer ≡ peer

    ensure_sock-Found :
        (sock : Option UnixDatagram) (s : State)
        → Aims abi sun s
        → s.notifier.sock ≡ sock
        → Found s (ensure_sock abi libc sun sock s).1 (ensure_sock abi libc sun sock s).0
    unfolding ensure_sock open_datagram delivered
    ensure_sock-Found (some sock) s a e = record {
      quiet = refl;
      aims = a;
      to_peer = λ found same.
          let same_sock : found ≡ sock = cc same in
          let here : Aimed abi sun (some sock) = subst (Aimed abi sun) e a.aimed in
          ap (λ (x : UnixDatagram). x.peer) same_sock ∙ here;
    }
    ensure_sock-Found none s a e =
        elim (Bool-cases (is_negative (libc s.world.trace (socket af_unix datagram_type 0)).ret)) [
          | inl p ↦ rw p (record {
            quiet = refl;
            aims = record { path = a.path; aimed = a.aimed };
            to_peer = λ sock same. cc same;
          })
          | inr p ↦ rw p (record {
            quiet = refl;
            aims = record { path = a.path; aimed = refl };
            to_peer = λ sock same. sym (ap (λ r. peer_of r) same);
          })
        ]
      where
        peer_of : Result UnixDatagram → Option (Bytes × ℕ)
        peer_of (ok sock) = sock.peer
        peer_of (err x) = none

    -- What follows the sending.
    returned-delivered :
        (contents : Bytes) (fds : List ℤ) (datagrams : List Datagram) (r : Result ℤ) (s : State)
        → delivered abi sun s.world.trace
          ≡ by_send (record { contents = contents; fds = fds }) r datagrams
        → Aims abi sun s
        → (delivered abi sun (continue r (λ n. pure true) s).1.world.trace
            ≡ datagrams ++ posted (continue r (λ n. pure true) s).0 (ok contents) fds)
          × Aims abi sun (continue r (λ n. pure true) s).1
    returned-delivered contents fds datagrams (ok n) s e a = (e, a)
    returned-delivered contents fds datagrams (err x) s e a = (e ∙ sym (append-nil datagrams), a)

    send_at-delivered :
        (contents : Bytes) (fds : List ℤ) (s : State)
        → All IsInt fds
        → Aims abi sun s
        → (delivered abi sun (send_at abi libc (some sun) (raw contents) fds s).1.world.trace
            ≡ delivered abi sun s.world.trace
              ++ posted (send_at abi libc (some sun) (raw contents) fds s).0 (ok contents) fds)
          × Aims abi sun (send_at abi libc (some sun) (raw contents) fds s).1
    unfolding send_at
    send_at-delivered contents fds s ints a =
        let datagrams = delivered abi sun s.world.trace in
        let finds : N UnixDatagram = λ t. ensure_sock abi libc sun t.notifier.sock t in
        let sends : UnixDatagram → N Bool =
          λ sock. deliver abi libc sock contents fds >> pure true in
        let found = ensure_sock-Found s.notifier.sock s a refl in
        >>=-outcome
          (λ r v.
            (delivered abi sun v.world.trace ≡ datagrams ++ posted r (ok contents) fds)
            × Aims abi sun v)
          finds sends s (λ e h. (found.quiet ∙ sym (append-nil datagrams), found.aims))
          (λ sock h.
            let t = (finds s).1 in
            let o = deliver abi libc sock contents fds t in
            returned-delivered contents fds datagrams o.0 o.1
              (deliver-delivered sock contents fds t ints (found.to_peer sock h)
                ∙ ap (by_send (record { contents = contents; fds = fds }) o.0) found.quiet)
              (deliver-Aims sock contents fds t found.aims))

    -- One call of send_raw.
    pub send_raw-posted :
        (contents : Bytes) (fds : List ℤ) (s : State)
        → All IsInt fds
        → Aims abi sun s
        → (delivered abi sun (send_raw abi libc (raw contents) fds s).1.world.trace
            ≡ delivered abi sun s.world.trace
              ++ posted (send_raw abi libc (raw contents) fds s).0 (ok contents) fds)
          × Aims abi sun (send_raw abi libc (raw contents) fds s).1
    unfolding send_raw
    send_raw-posted contents fds s ints a = simp (a.path) (send_at-delivered contents fds s ints a)

-- ===== src/Journal/Writer/Received/Entries.antt =====
-- Calls of send_raw of mpsystemd/journal.py, by what journald gets.
use micropython_systemd.Prelude.{
  ℕ, ◌≡◌, refl, sym, ap, ◌∙◌, arith, Bool, true, false, Bool-cases, inl, inr, List, [], ◌∷◌, ◌++◌,
  append-nil, Option, none, some, Bytes, codes, length, ℤ, is_negative,
}
use micropython_systemd.Errors.{Result, ok, err}
use micropython_systemd.Exec.{pure, ◌>>◌, >>=-outcome, continue, after}
use micropython_systemd.World.{World, Libc, Trace, Message, sendmsg, close, memfd_create}
use micropython_systemd.Native.{close_fd}
use micropython_systemd.Native.Struct.{Abi}
use micropython_systemd.Native.Struct.Laws.{IsInt}
use micropython_systemd.Native.Ancillary.{scm_rights, parse_scm_rights}
use micropython_systemd.Native.Ancillary.Layout.{IsAbi, cmsg_align_lem}
use micropython_systemd.Native.Ancillary.RoundTrip.{parse_scm_rights-scm_rights}
use micropython_systemd.Native.Receiving.RoundTrip.{length-scm_rights}
use micropython_systemd.Native.Memfd.{memfd_sealed}
use micropython_systemd.Native.Sockets.Named.{is_addressed-sockaddr_un}
use micropython_systemd.Native.Sockets.{
  sockaddr_un, UnixDatagram, send, send_with_fds, send_rights, msg_nosignal,
}
use micropython_systemd.Journal.Writer.{
  W, State, on_world, get_socket, send_memfd, pass_memfd, fall_back, is_too_large, send_raw,
}
use micropython_systemd.Journal.Writer.Received.{file_of, is_sealed, received}
use micropython_systemd.Journal.Writer.Received.Socket.{
  Aims, peer, by_datagram, send_to-received, opened-Found,
}
use micropython_systemd.Journal.Writer.Received.Memfd.{HasFile, created, memfd_sealed-HasFile}

-- The entries behind a call, by its outcome: one more where it returned True.
abbrev pub behind : Bytes → Result (Option Bool) → List Bytes → List Bytes
behind body (ok (some true)) entries = entries ++ body ∷ []
behind body (ok (some false)) entries = entries
behind body (ok none) entries = entries
behind body (err e) entries = entries

module _ (abi : Abi) (is_abi : IsAbi abi) (sun : Bytes) where
  -- A control message that carries one descriptor reads as it.
  passed_one :
      (fd : ℤ)
      → IsInt fd
      → parse_scm_rights abi (scm_rights abi (fd ∷ [])) (length (scm_rights abi (fd ∷ [])))
        ≡ fd ∷ []
  passed_one fd is_int =
      let control = scm_rights abi (fd ∷ []) in
      let (_, larger, _) = cmsg_align_lem abi 4 is_abi in
      ap (λ c. parse_scm_rights abi c (length control)) (sym (append-nil control))
      ∙ parse_scm_rights-scm_rights abi (fd ∷ []) [] (length control) is_abi (omega arith)
          (is_int, tt) (omega (arith, length-scm_rights abi (fd ∷ []) is_abi, larger))

  module _ (libc : Libc) (has_memfd : Bool) (fuel : ℕ)
      (closes_fine : (t : Trace) (fd : ℤ) → is_negative (libc t (close fd)).ret ≡ false) where
    -- What sending a memfd adds: the contents of its file.
    abbrev one_more : Bytes → List Bytes → Result (Unit {0}) → List Bytes
    one_more body entries (ok u) = entries ++ body ∷ []
    one_more body entries (err e) = entries

    carried-received :
        (to fd : ℤ) (body : Bytes) (w : World)
        → IsInt fd
        → file_of fd w.trace ≡ body
        → is_sealed fd w.trace ≡ true
        → received abi sun
            ((send_rights abi libc to (peer abi sun libc has_memfd fuel) [] (fd ∷ [])
                >> pure (tt {0}))
              w).1.trace
          ≡ one_more body
              (received abi sun w.trace)
              ((send_rights abi libc to (peer abi sun libc has_memfd fuel) [] (fd ∷ [])
                  >> pure (tt {0}))
                w).0
    unfolding received
    carried-received to fd body w is_int holds sealed =
        let message : Message = record {
          name = (sockaddr_un abi sun).0;
          namelen = (sockaddr_un abi sun).1;
          payload = [];
          control = scm_rights abi (fd ∷ []);
        } in
        elim (Bool-cases (is_negative (libc w.trace (sendmsg to message msg_nosignal)).ret)) [
          | inl p ↦ rw p (rw p refl)
          | inr p ↦
              rw p
                (rw (p, is_addressed-sockaddr_un abi sun, passed_one fd is_int, sealed, holds) refl)
        ]

    -- The end of pass_memfd: the memfd is closed, whatever came of the message.
    closed-received :
        (f : ℤ) (body : Bytes) (entries : List Bytes) (r : Result (Unit {0})) (s : State)
        → received abi sun s.world.trace ≡ one_more body entries r
        → received abi sun
            (continue
              (after r (on_world (close_fd libc f) s).0)
              (λ u. pure (some true))
              (on_world (close_fd libc f) s).1).1.world.trace
          ≡ behind body
              (continue
                (after r (on_world (close_fd libc f) s).0)
                (λ u. pure (some true))
                (on_world (close_fd libc f) s).1).0
              entries
    unfolding received
    closed-received f body entries (ok u) s e = rw (closes_fine s.world.trace f) e
    closed-received f body entries (err x) s e = rw (closes_fine s.world.trace f) e

    pass_memfd-received :
        (sock : UnixDatagram) (f : ℤ) (body : Bytes) (s : State)
        → IsInt f
        → file_of f s.world.trace ≡ body
        → is_sealed f s.world.trace ≡ true
        → sock.peer ≡ peer abi sun libc has_memfd fuel
        → received abi sun (pass_memfd abi libc has_memfd fuel sock (some f) s).1.world.trace
          ≡ behind body
              (pass_memfd abi libc has_memfd fuel sock (some f) s).0
              (received abi sun s.world.trace)
    unfolding send_with_fds
    pass_memfd-received sock f body s is_int holds sealed to_peer =
        let sends = send_memfd abi libc has_memfd fuel sock f s in
        closed-received f body (received abi sun s.world.trace) sends.0 sends.1
          (rw to_peer (carried-received sock.fd f body s.world is_int holds sealed))

    module _
        (ints : (t : Trace) (name : Bytes) (flags : ℕ)
          → IsInt (libc t (memfd_create name flags)).ret) where
      fall_back-received :
          (sock : UnixDatagram) (body : Bytes) (entries : List Bytes) (r : Result ℤ) (s : State)
          → sock.peer ≡ peer abi sun libc has_memfd fuel
          → received abi sun s.world.trace ≡ by_datagram abi sun libc has_memfd fuel body entries r
          → received abi sun (fall_back abi libc has_memfd fuel sock body r s).1.world.trace
            ≡ behind body (fall_back abi libc has_memfd fuel sock body r s).0 entries
      fall_back-received sock body entries (ok n) s to_peer e = e
      fall_back-received sock body entries (err x) s to_peer e =
          elim (Bool-cases (is_too_large x)) [
            | inl large ↦
                let (quiet, holds) =
                  memfd_sealed-HasFile abi sun libc fuel (codes "mpsystemd-journal") body s.world
                    has_memfd in
                let makes : W (Option ℤ) =
                  on_world (memfd_sealed libc has_memfd fuel (codes "mpsystemd-journal") body) in
                rw large (
                  >>=-outcome (λ r v. received abi sun v.world.trace ≡ behind body r entries) makes
                    (pass_memfd abi libc has_memfd fuel sock) s (λ y h. quiet ∙ e)
                    (λ handed h. passes handed (makes s).1 (quiet ∙ e) (rw h at holds)))
            | inr small ↦ rw small e
          ]
        where
          passes :
              (handed : Option ℤ) (v : State)
              → received abi sun v.world.trace ≡ entries
              → HasFile body
                  (created abi sun libc fuel (codes "mpsystemd-journal") body s.world)
                  (ok handed)
                  v.world
              → received abi sun (pass_memfd abi libc has_memfd fuel sock handed v).1.world.trace
                ≡ behind body (pass_memfd abi libc has_memfd fuel sock handed v).0 entries
          passes none v same h = same
          passes (some f) v same (is_it, holds, sealed) =
              pass_memfd-received sock f body v (rw is_it (ints s.world.trace _ _)) (rw is_it holds)
                (rw is_it sealed) to_peer
              ∙ ap (behind body _) same

      -- The messages leave the object.
      returned-Aims :
          {A B : Type 0} (r : Result A) (b : B) (s : State)
          → Aims abi sun s.writer
          → Aims abi sun (continue r (λ u. pure b) s).1.writer
      returned-Aims (ok u) b s a = a
      returned-Aims (err e) b s a = a

      pass_memfd-Aims :
          (sock : UnixDatagram) (handed : Option ℤ) (s : State)
          → Aims abi sun s.writer
          → Aims abi sun (pass_memfd abi libc has_memfd fuel sock handed s).1.writer
      pass_memfd-Aims sock none s a = a
      pass_memfd-Aims sock (some f) s a = returned-Aims _ (some true) _ a

      fall_back-Aims :
          (sock : UnixDatagram) (body : Bytes) (r : Result ℤ) (s : State)
          → Aims abi sun s.writer
          → Aims abi sun (fall_back abi libc has_memfd fuel sock body r s).1.writer
      fall_back-Aims sock body (ok n) s a = a
      fall_back-Aims sock body (err x) s a = elim (Bool-cases (is_too_large x)) [
        | inl large ↦
            let makes : W (Option ℤ) =
              on_world (memfd_sealed libc has_memfd fuel (codes "mpsystemd-journal") body) in
            rw large (
              >>=-outcome (λ r v. Aims abi sun v.writer) makes
                (pass_memfd abi libc has_memfd fuel sock) s (λ y h. a)
                (λ handed h. pass_memfd-Aims sock handed (makes s).1 a))
        | inr small ↦ rw small a
      ]

      -- One call of send_raw.
      pub received-send_raw :
          (body : Bytes) (s : State)
          → Aims abi sun s.writer
          → (received abi sun (send_raw abi libc has_memfd fuel body s).1.world.trace
              ≡ behind body
                  (send_raw abi libc has_memfd fuel body s).0
                  (received abi sun s.world.trace))
            × Aims abi sun (send_raw abi libc has_memfd fuel body s).1.writer
      unfolding send_raw send
      received-send_raw body s a =
          let found = opened-Found abi sun libc has_memfd fuel s.writer.sock s a refl in
          >>=-outcome
            (λ r v.
              (received abi sun v.world.trace ≡ behind body r (received abi sun s.world.trace))
              × Aims abi sun v.writer)
            (get_socket abi libc has_memfd fuel) _ s (λ x h. (found.quiet, found.aims))
            (λ sock h.
              let t = (get_socket abi libc has_memfd fuel s).1 in
              let sends = on_world (send abi libc sock body) t in
              let to_peer = found.to_peer sock h in
              let sent : received abi sun sends.1.world.trace
                  ≡ by_datagram abi sun libc has_memfd fuel body (received abi sun t.world.trace)
                      sends.0 =
                rw to_peer (send_to-received abi sun libc has_memfd fuel sock.fd body t.world) in
              (
                fall_back-received sock body (received abi sun s.world.trace) sends.0 sends.1
                    to_peer
                    (sent
                      ∙ ap (λ es. by_datagram abi sun libc has_memfd fuel body es sends.0)
                          found.quiet),
                fall_back-Aims sock body sends.0 sends.1 found.aims,
              ))

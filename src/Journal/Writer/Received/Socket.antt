-- ===== src/Journal/Writer/Received/Socket.antt =====
-- The socket of a JournalWriter of mpsystemd/journal.py, by where its datagrams go.
use mathlib.Core.Path.{subst}
use micropython_systemd.Prelude.{
  ℕ, ◌≡◌, refl, sym, ap, ◌∙◌, Bool, Bool-cases, inl, inr, List, [], ◌∷◌, ◌++◌, Option, none, some,
  Bytes, ℤ, is_negative,
}
use micropython_systemd.Errors.{Result, ok, err}
use micropython_systemd.World.{World, Libc, sendto, socket}
use micropython_systemd.Native.Struct.{Abi}
use micropython_systemd.Native.Sockets.Named.{is_addressed-sockaddr_un, Aimed}
use micropython_systemd.Native.Sockets.{
  sockaddr_un, UnixDatagram, open_datagram, send_to, msg_nosignal, af_unix, datagram_type,
}
use micropython_systemd.Journal.Writer.{JournalWriter, State, opened}
use micropython_systemd.Journal.Writer.Received.{received}

-- A writer of a path: its socket, where it has one, goes there.
pub record Aims (abi : Abi) (sun : Bytes) (writer : JournalWriter) : Type 0 where
  pub path : writer.sun_path ≡ sun
  pub aimed : Aimed abi sun writer.sock

module _ (abi : Abi) (sun : Bytes) (libc : Libc) (has_memfd : Bool) (fuel : ℕ) where
  abbrev pub peer : Option (Bytes × ℕ)
  peer = some (sockaddr_un abi sun)

  -- What the answer to a datagram adds.
  abbrev pub by_datagram : Bytes → List Bytes → Result ℤ → List Bytes
  by_datagram body entries (ok n) = entries ++ body ∷ []
  by_datagram body entries (err e) = entries

  pub send_to-received :
      (to : ℤ) (body : Bytes) (w : World)
      → received abi sun (send_to abi libc to peer body w).1.trace
        ≡ by_datagram body (received abi sun w.trace) (send_to abi libc to peer body w).0
  unfolding received
  send_to-received to body w =
      let (name, namelen) = sockaddr_un abi sun in
      elim (Bool-cases
        (is_negative (libc w.trace (sendto to body msg_nosignal name namelen)).ret)) [
          | inl p ↦ rw p refl
          | inr p ↦ rw (p, is_addressed-sockaddr_un abi sun) refl
        ]

  -- Finding the socket sends nothing, and it goes to the path.
  pub record Found (s t : State) (r : Result UnixDatagram) : Type 0 where
    pub quiet : received abi sun t.world.trace ≡ received abi sun s.world.trace
    pub aims : Aims abi sun t.writer
    pub to_peer : (sock : UnixDatagram) → r ≡ ok sock → sock.peer ≡ peer

  pub opened-Found :
      (sock : Option UnixDatagram) (s : State)
      → Aims abi sun s.writer
      → s.writer.sock ≡ sock
      → Found s (opened abi libc has_memfd fuel sock s).1 (opened abi libc has_memfd fuel sock s).0
  unfolding open_datagram received
  opened-Found (some sock) s a e = record {
    quiet = refl;
    aims = a;
    to_peer = λ found same.
        let same_sock : found ≡ sock = cc same in
        let here : Aimed abi sun (some sock) = subst (Aimed abi sun) e a.aimed in
        ap (λ (x : UnixDatagram). x.peer) same_sock ∙ here;
  }
  opened-Found none s a e =
      let here : some (sockaddr_un abi s.writer.sun_path) ≡ peer =
        ap (λ p. some (sockaddr_un abi p)) a.path in
      elim (Bool-cases (is_negative (libc s.world.trace (socket af_unix datagram_type 0)).ret)) [
        | inl p ↦ rw p (record { quiet = refl; aims = a; to_peer = λ sock same. cc same })
        | inr p ↦ rw p (record {
          quiet = refl;
          aims = record { path = a.path; aimed = here };
          to_peer = λ sock same. sym (ap (λ r. peer_of r) same) ∙ here;
        })
      ]
    where
      peer_of : Result UnixDatagram → Option (Bytes × ℕ)
      peer_of (ok sock) = sock.peer
      peer_of (err x) = none

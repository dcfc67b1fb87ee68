-- ===== src/Journal/Shared/Descriptors.antt =====
-- The descriptors of the writer that the functions of mpsystemd/journal.py share.
use micropython_systemd.Prelude.{
  ℕ, ◌≡◌, ◌≢◌, refl, ap, arith, Bool, List, [], ◌∷◌, Option, none, some, Bytes, ℤ, pos, inl, inr,
}
use micropython_systemd.Errors.{Result, ok, err, Result-cases}
use micropython_systemd.Utf8.{Chars, text}
use micropython_systemd.Address.{encode_unix_address}
use micropython_systemd.World.{Libc, Trace, write}
use micropython_systemd.Text.{Runtime}
use micropython_systemd.Payload.{Fields, Value}
use micropython_systemd.Native.Struct.{Abi}
use micropython_systemd.Journal.Writer.{JournalWriter, State, W, new_writer, send_entry}
use micropython_systemd.Journal.Writer.Descriptors.{
  in_state, send_fields-Keeps, close-Keeps, close-empty,
}
use micropython_systemd.Journal.Shared.{
  Shared, with_shared, run_with, use_writer, or_new, close_held, journal_socket,
}
use micropython_systemd.Journal.Shared.Requests.{
  entry_of, Request, send, send_assembled, close, Fits, RequestFits, AllFit, done, called,
}
use micropython_systemd.Descriptors.{count, Accounted, Ledger, Owes, Owes-refl, Keeps}
use micropython_systemd.Descriptors.Sockets.{owned}

-- The shared writer holds the descriptor of its socket.
abbrev pub held_by : Option JournalWriter → List ℤ
held_by none = []
held_by (some writer) = owned writer.sock

abbrev held_by_new : Result JournalWriter → List ℤ
held_by_new (ok writer) = owned writer.sock
held_by_new (err e) = []

abbrev pub in_shared : Ledger Shared
in_shared = record { trace = λ s. s.world.trace; held = λ s. held_by s.writer }

-- An object is made without a socket.
new_writer-fresh :
    (address : Chars) (writer : JournalWriter)
    → new_writer address ≡ ok writer
    → [] ≡ owned writer.sock
unfolding new_writer
new_writer-fresh address writer e = elim (Result-cases (encode_unix_address address)) [
  | inl (sun, h) ↦ ap held_by_new (rw (h, new_writer) at e)
  | inr (x, h) ↦ let refused = rw (h, new_writer) at e in cc
]

module _ (run : Runtime) (abi : Abi) (libc : Libc) (has_memfd : Bool) (fuel : ℕ) where
  use_writer-Owes :
      {A : Type 0} (m : W A) (writer : JournalWriter) (s : Shared)
      → Keeps abi in_state m
      → held_by s.writer ≡ owned writer.sock
      → Owes abi in_shared [] s (use_writer m writer s).1 []
  use_writer-Owes m writer s keeps same =
      let p = keeps.owes (record { writer = writer; world = s.world }) in
      record { accounts = λ d. omega (arith, p.accounts d, ap (count d) same) }

  or_new-owned :
      (held : Option JournalWriter) (writer : JournalWriter)
      → or_new held ≡ ok writer
      → held_by held ≡ owned writer.sock
  or_new-owned none writer e = new_writer-fresh (text journal_socket) writer e
  or_new-owned (some w) writer e = cc

  run_with-Owes :
      {A : Type 0} (m : W A) (s : Shared) (r : Result JournalWriter)
      → Keeps abi in_state m
      → ((writer : JournalWriter) → r ≡ ok writer → held_by s.writer ≡ owned writer.sock)
      → Owes abi in_shared [] s (run_with m r s).1 []
  run_with-Owes m s (err e) keeps same = Owes-refl abi in_shared [] s
  run_with-Owes m s (ok writer) keeps same = use_writer-Owes m writer s keeps (same writer refl)

  with_shared-Owes :
      {A : Type 0} (m : W A) (s : Shared)
      → Keeps abi in_state m
      → Owes abi in_shared [] s (with_shared m s).1 []
  unfolding with_shared
  with_shared-Owes m s keeps = run_with-Owes m s (or_new s.writer) keeps (or_new-owned s.writer)

  close_held-Owes :
      (s : Shared) (held : Option JournalWriter)
      → s.writer ≡ held
      → Owes abi in_shared [] s (close_held run abi libc has_memfd fuel held s).1 []
  close_held-Owes s none e = Owes-refl abi in_shared [] s
  close_held-Owes s (some writer) e =
      let start : State = record { writer = writer; world = s.world } in
      let empty = close-empty abi libc has_memfd fuel start in
      let p = (close-Keeps abi libc has_memfd fuel).owes start in
      rw empty.0 (record {
        accounts = λ d. omega (
          arith,
          p.accounts d,
          ap (λ o. count d (owned o)) empty.1,
          ap (λ o. count d (held_by o)) e,
        );
      })

  module _
      (progress : (t : Trace) (fd : ℤ) (b : ℕ) (view : Bytes)
        → (libc t (write fd (b ∷ view))).ret ≢ pos 0) where
    send_entry-Keeps :
        (message : Option Value) (priority : Option ℤ) (fields : Fields)
        → Fits run fuel (entry_of message priority fields)
        → Keeps abi in_state (send_entry run abi libc has_memfd fuel message priority fields)
    unfolding send_entry
    send_entry-Keeps message none fields fits =
        send_fields-Keeps abi libc has_memfd fuel progress run _ fits
    send_entry-Keeps message (some priority) fields fits =
        send_fields-Keeps abi libc has_memfd fuel progress run _ fits

    done-Owes :
        (q : Request) (s : Shared)
        → RequestFits run fuel q
        → Owes abi in_shared [] s (done run abi libc has_memfd fuel q s) []
    done-Owes (send message priority fields) s fits =
        with_shared-Owes _ s (send_entry-Keeps message priority fields fits)
    done-Owes (send_assembled entry) s fits =
        with_shared-Owes _ s (send_fields-Keeps abi libc has_memfd fuel progress run entry fits)
    done-Owes close s fits = close_held-Owes s s.writer refl

    -- However send, send_fields and close of the module are called, with any failure of any call,
    -- where write never returns 0 and each entry has at most as many bytes as there are rounds:
    -- what the calls opened, memfds included, is closed again, each descriptor as often as it was
    -- opened, but for the socket of the shared writer.
    pub called-Accounted :
        (qs : List Request) (s : Shared)
        → AllFit run fuel qs
        → Accounted abi s.world.trace
            (held_by s.writer)
            (called run abi libc has_memfd fuel qs s).world.trace
            (held_by (called run abi libc has_memfd fuel qs s).writer)
    unfolding called
    called-Accounted [] s fits d = refl
    called-Accounted (q ∷ qs) s (fit, fits) d = omega (
      arith,
      (done-Owes q s fit).accounts d,
      called-Accounted qs (done run abi libc has_memfd fuel q s) fits d,
    )

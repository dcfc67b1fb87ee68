-- ===== src/Journal/Shared/Log.antt =====
-- What journald gets of the calls of the functions of mpsystemd/journal.py: the abstract journal is
-- the list of the entries of the calls that returned True.
use micropython_systemd.Prelude.{
  ℕ, ◌≡◌, ◌≢◌, refl, sym, ap, ◌∙◌, Bool, true, false, Bool-cases, inl, inr, List, [], ◌∷◌, ◌++◌,
  append-nil, append_assoc, Option, none, some, Bytes, codes, ℤ, pos, is_negative,
}
use micropython_systemd.Errors.{Result, ok, err}
use micropython_systemd.World.{Libc, Trace, close, memfd_create, write}
use micropython_systemd.Utf8
use micropython_systemd.Address.{encode_unix_address}
use micropython_systemd.Text.{Runtime}
use micropython_systemd.Payload.{Fields, Value}
use micropython_systemd.Native.Struct.{Abi}
use micropython_systemd.Native.Struct.Laws.{IsInt}
use micropython_systemd.Native.Ancillary.Layout.{IsAbi}
use micropython_systemd.Native.Sockets.{UnixDatagram, close_datagram}
use micropython_systemd.Journal.{Entry, encode_fields}
use micropython_systemd.Journal.Writer.{
  JournalWriter, State, W, new_writer, send_raw, send_fields, send_entry, close_sock,
}
use micropython_systemd.Journal.Writer
use micropython_systemd.Journal.Writer.Descriptors.{close-empty}
use micropython_systemd.Journal.Writer.Received.{received}
use micropython_systemd.Journal.Writer.Received.Entries.{behind, received-send_raw}
use micropython_systemd.Journal.Writer.Received.Socket.{Aims}
use micropython_systemd.Journal.Writer.Received.Decided.{Answers, send_raw-Answers}
use micropython_systemd.Journal.Shared.{
  Shared, with_shared, run_with, or_new, send_shared, send_fields_shared, close_held,
}
use micropython_systemd.Journal.Shared.Requests.{
  entry_of, Request, Fits, RequestFits, AllFit, done, called,
}
use micropython_systemd.Journal.Shared.Requests

abbrev pub journald_path : Bytes
journald_path = codes "/run/systemd/journal/socket"

-- The writer of the module, where there is one, is one of the socket of journald.
abbrev pub AimsHeld : Abi → Option JournalWriter → Type 0
AimsHeld abi none = Unit {0}
AimsHeld abi (some writer) = Aims abi journald_path writer

or_new-fresh : or_new none ≡ ok (record { sun_path = journald_path; sock = none })
unfolding new_writer encode_unix_address Utf8.encode
or_new-fresh = refl

-- The serialised entry of a call that returned True.
abbrev pub taken : Result (Option Bool) → Result Bytes → List Bytes
taken (ok (some true)) (ok body) = body ∷ []
taken (ok (some true)) (err e) = []
taken (ok (some false)) encoded = []
taken (ok none) encoded = []
taken (err e) encoded = []

behind-taken :
    (body : Bytes) (r : Result (Option Bool)) (entries : List Bytes)
    → behind body r entries ≡ entries ++ taken r (ok body)
behind-taken body (ok (some true)) entries = refl
behind-taken body (ok (some false)) entries = sym (append-nil entries)
behind-taken body (ok none) entries = sym (append-nil entries)
behind-taken body (err e) entries = sym (append-nil entries)

module _ (run : Runtime) (abi : Abi) (libc : Libc) (has_memfd : Bool) (fuel : ℕ) where
  abbrev pub entries_of : Request → Shared → List Bytes
  entries_of (Requests.send message priority fields) s =
      taken (send_shared run abi libc has_memfd fuel message priority fields s).0
        (encode_fields run (entry_of message priority fields))
  entries_of (Requests.send_assembled entry) s =
      taken (send_fields_shared run abi libc has_memfd fuel entry s).0 (encode_fields run entry)
  entries_of Requests.close s = []

  -- The entries of the calls that returned True, in the order of the calls.
  unfoldable pub log : List Request → Shared → List Bytes
  log [] s = []
  log (q ∷ qs) s = entries_of q s ++ log qs (done run abi libc has_memfd fuel q s)

  -- A call that sends returns True or raises.
  abbrev pub Ends : Request → Shared → Type 0
  Ends (Requests.send message priority fields) s =
      Answers (send_shared run abi libc has_memfd fuel message priority fields s).0
  Ends (Requests.send_assembled entry) s =
      Answers (send_fields_shared run abi libc has_memfd fuel entry s).0
  Ends Requests.close s = Unit {0}

  abbrev pub AllEnd : List Request → Shared → Type 0
  AllEnd [] s = Unit {0}
  AllEnd (q ∷ qs) s = Ends q s × AllEnd qs (done run abi libc has_memfd fuel q s)

  -- What a call does for an entry: it returns True or raises, and journald gets the entry in the
  -- first case.
  pub record Logged (encoded : Result Bytes) (before after : Trace) (held : Option JournalWriter)
      (r : Result (Option Bool)) : Type 0 where
    pub entries :
        received abi journald_path after ≡ received abi journald_path before ++ taken r encoded
    pub answers : Answers r
    pub aims : AimsHeld abi held

  abbrev Logs : W (Option Bool) → Result Bytes → Type 0
  Logs m encoded =
      (s : State)
      → Aims abi journald_path s.writer
      → Logged encoded s.world.trace (m s).1.world.trace (some (m s).1.writer) (m s).0

  abbrev LogsShared : Result Bytes → Shared → Result (Option Bool) × Shared → Type 0
  LogsShared encoded s (r, t) = Logged encoded s.world.trace t.world.trace t.writer r

  module _ (is_abi : IsAbi abi)
      (closes_fine : (t : Trace) (fd : ℤ) → is_negative (libc t (close fd)).ret ≡ false)
      (ints : (t : Trace) (name : Bytes) (flags : ℕ) → IsInt (libc t (memfd_create name flags)).ret)
      (progress : (t : Trace) (fd : ℤ) (b : ℕ) (view : Bytes)
        → (libc t (write fd (b ∷ view))).ret ≢ pos 0) where
    send_fields-Logs :
        (entry : Entry)
        → Fits run fuel entry
        → Logs (send_fields abi libc has_memfd fuel run entry) (encode_fields run entry)
    unfolding send_fields
    send_fields-Logs entry fits s aims = go (encode_fields run entry) refl
      where
        go :
            (r : Result Bytes)
            → encode_fields run entry ≡ r
            → Logged r s.world.trace
                (send_fields abi libc has_memfd fuel run entry s).1.world.trace
                (some (send_fields abi libc has_memfd fuel run entry s).1.writer)
                (send_fields abi libc has_memfd fuel run entry s).0
        go (err x) e = rw e (record { entries = sym (append-nil _); answers = tt; aims = aims })
        go (ok body) e =
            let (sent, after) =
              received-send_raw abi is_abi journald_path libc has_memfd fuel closes_fine ints body s
                aims in
            rw e (record {
              entries = sent ∙ behind-taken body _ _;
              answers = send_raw-Answers libc progress fuel body (fits body e) abi has_memfd s;
              aims = after;
            })

    with_shared-Logs :
        (m : W (Option Bool)) (encoded : Result Bytes) (s : Shared)
        → Logs m encoded
        → AimsHeld abi s.writer
        → LogsShared encoded s (with_shared m s)
    unfolding with_shared
    with_shared-Logs m encoded s logs aims = go s.writer aims
      where
        go :
            (held : Option JournalWriter)
            → AimsHeld abi held
            → LogsShared encoded s (run_with m (or_new held) s)
        go (some writer) a = logs (record { writer = writer; world = s.world }) a
        go none a = rw or_new-fresh (logs _ (record { path = refl; aimed = tt }))

    send_entry-Logs :
        (message : Option Value) (priority : Option ℤ) (fields : Fields)
        → Fits run fuel (entry_of message priority fields)
        → Logs
            (send_entry run abi libc has_memfd fuel message priority fields)
            (encode_fields run (entry_of message priority fields))
    unfolding send_entry
    send_entry-Logs message none fields fits = send_fields-Logs _ fits
    send_entry-Logs message (some priority) fields fits = send_fields-Logs _ fits

    close_held-received :
        (s : Shared) (held : Option JournalWriter)
        → (received abi journald_path (close_held run abi libc has_memfd fuel held s).1.world.trace
            ≡ received abi journald_path s.world.trace)
    unfolding Writer.close close_datagram received
    close_held-received s none = refl
    close_held-received s (some writer) =
        let start : State = record { writer = writer; world = s.world } in
        rw (close-empty abi libc has_memfd fuel start).0 (go start writer.sock)
      where
        go :
            (t : State) (sock : Option UnixDatagram)
            → received abi journald_path (close_sock abi libc has_memfd fuel sock t).1.world.trace
              ≡ received abi journald_path t.world.trace
        go t none = refl
        go t (some sock) = elim (Bool-cases (is_negative sock.fd)) [
          | inl n ↦ rw n refl
          | inr n ↦ rw n refl
        ]

    close_held-Aims :
        (s : Shared) (held : Option JournalWriter)
        → s.writer ≡ held
        → AimsHeld abi (close_held run abi libc has_memfd fuel held s).1.writer
    close_held-Aims s none e = rw e tt
    close_held-Aims s (some writer) e =
        let start : State = record { writer = writer; world = s.world } in
        rw (close-empty abi libc has_memfd fuel start).0 tt

    done-received :
        (q : Request) (s : Shared)
        → RequestFits run fuel q
        → AimsHeld abi s.writer
        → (received abi journald_path (done run abi libc has_memfd fuel q s).world.trace
            ≡ received abi journald_path s.world.trace ++ entries_of q s)
          × Ends q s
          × AimsHeld abi (done run abi libc has_memfd fuel q s).writer
    done-received (Requests.send message priority fields) s fits aims =
        let l = with_shared-Logs _ _ s (send_entry-Logs message priority fields fits) aims in
        (l.entries, l.answers, l.aims)
    done-received (Requests.send_assembled entry) s fits aims =
        let l = with_shared-Logs _ _ s (send_fields-Logs entry fits) aims in
        (l.entries, l.answers, l.aims)
    done-received Requests.close s fits aims =
        (close_held-received s s.writer ∙ sym (append-nil _), tt, close_held-Aims s s.writer refl)

    -- However send, send_fields and close of the module are called, exceptions caught, on a word of
    -- 4 or 8 bytes, from no writer or one whose path is /run/systemd/journal/socket and whose
    -- socket, where it is open, goes there, where close never fails, memfd_create gives ints, write
    -- never returns 0 and each entry has at most as many bytes as there are rounds: each call that
    -- sends returns True or raises, and the socket address of that path gets exactly the serialised
    -- entries of the calls that returned True, in the order of the calls, whichever of the other
    -- calls of libc fail, as datagrams or as files that empty messages with one descriptor carry,
    -- with all the seals on them.
    pub received-called :
        (qs : List Request) (s : Shared)
        → AllFit run fuel qs
        → AimsHeld abi s.writer
        → (received abi journald_path (called run abi libc has_memfd fuel qs s).world.trace
            ≡ received abi journald_path s.world.trace ++ log qs s)
          × AllEnd qs s
    unfolding called log
    received-called [] s fits aims = (sym (append-nil _), tt)
    received-called (q ∷ qs) s (fit, fits) aims =
        let (first, ends, after) = done-received q s fit aims in
        let (later, all_end) =
          received-called qs (done run abi libc has_memfd fuel q s) fits after in
        (
          later
              ∙ ap (λ es. es ++ log qs (done run abi libc has_memfd fuel q s)) first
              ∙ append_assoc (received abi journald_path s.world.trace) (entries_of q s) _,
          (ends, all_end),
        )

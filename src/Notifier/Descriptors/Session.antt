-- ===== src/Notifier/Descriptors/Session.antt =====
-- The descriptors of a Notifier of mpsystemd/daemon.py over any sequence of calls of its methods,
-- and of `with Notifier()` around one.
use micropython_systemd.Prelude.{
  ◌+◌, ◌≡◌, refl, ap, arith, Bool, true, false, Bool-cases, inl, inr, List, [], ◌∷◌, ◌++◌, ℤ,
  is_negative, Option, none, some, Bytes, Text,
}
use micropython_systemd.Errors.{Result, ok, err}
use micropython_systemd.Exec.{pure, ◌>>=◌, ◌>>◌, finally, continue}
use micropython_systemd.World.{World, M, Libc, Trace, close}
use micropython_systemd.World.Environment
use micropython_systemd.Utf8.{Chars, text}
use micropython_systemd.Address.{encode_unix_address}
use micropython_systemd.Text.{Runtime}
use micropython_systemd.Payload.{Fields, Value}
use micropython_systemd.Native.Struct.{Abi}
use micropython_systemd.Native.Sockets.{UnixDatagram, close_datagram}
use micropython_systemd.Descriptors.{count, count-append, opens, closes, Accounted, Keeps}
use micropython_systemd.Descriptors.Sockets.{owned}
use micropython_systemd.Notifier.{
  State, N, on_world, with_notifier, usable, with_path, new_notifier,
}
use micropython_systemd.Notifier
use micropython_systemd.Notifier.Descriptors.{
  in_state, on_world-Uses, send_raw-Keeps, notify-Keeps, pure-Keeps, then-Keeps, monotonic_us-Keeps,
  pid_or_own-Keeps, fdstore-Keeps, fdstore_remove-Keeps, close-Keeps,
}
use micropython_systemd.Notifier.Descriptors.Barrier.{
  got_read, barrier_begin-Uses, barrier_finish-Uses, barrier-Keeps,
}

-- A call of a method that gives the caller no descriptor: any but barrier_begin.
pub data Request : Type 0 where
  notify : List Chars → Fields → Request
  ready stopping reloading : Option Value → Request
  status : Value → Request
  errno extend_timeout barrier : ℤ → Request
  send_raw : Chars → List ℤ → Request
  barrier_finish : ℤ → ℤ → Request
  main_pid : Option ℤ → Request
  watchdog_ping watchdog_trigger close_socket : Request
  fdstore : List ℤ → Option Text → Option Bool → Request
  fdstore_remove : Text → Request

-- What a caller does with an object.
pub data Use : Type 0 where
  asks : Request → Use
  begins_barrier : Use

module _ (run : Runtime) (abi : Abi) (libc : Libc) where
  abbrev pub answered : Request → N Bool
  answered (notify states fields) = Notifier.notify run abi libc states fields
  answered (ready t) = Notifier.ready run abi libc t
  answered (stopping t) = Notifier.stopping run abi libc t
  answered (reloading t) = Notifier.reloading run abi libc t
  answered (status t) = Notifier.status run abi libc t
  answered (errno value) = Notifier.errno run abi libc value
  answered (extend_timeout usec) = Notifier.extend_timeout run abi libc usec
  answered (barrier timeout_ms) = Notifier.barrier run abi libc timeout_ms
  answered (send_raw payload fds) = Notifier.send_raw abi libc payload fds
  answered (barrier_finish read_fd timeout_ms) =
      Notifier.barrier_finish run abi libc read_fd timeout_ms
  answered (main_pid pid) = Notifier.main_pid run abi libc pid
  answered watchdog_ping = Notifier.watchdog_ping run abi libc
  answered watchdog_trigger = Notifier.watchdog_trigger run abi libc
  answered (fdstore fds name poll) = Notifier.fdstore run abi libc fds name poll
  answered (fdstore_remove name) = Notifier.fdstore_remove run abi libc name
  answered close_socket = Notifier.close abi libc >> pure true

  -- One after the other, up to the first exception.
  abbrev pub in_turn : List Request → N (Unit {0})
  in_turn [] = pure tt
  in_turn (q ∷ qs) = answered q >>= λ b. in_turn qs

  -- Calls whose exceptions are caught: the state, with the descriptors that the caller was handed
  -- on the way.
  unfoldable pub used : List Use → State → List ℤ × State
  used [] s = ([], s)
  used (asks q ∷ us) s = used us (answered q s).1
  used (begins_barrier ∷ us) s =
      let o = Notifier.barrier_begin run abi libc s in
      let rest = used us o.1 in (got_read o.0 ++ rest.0, rest.1)

-- An object is made without a socket.
with_path-fresh : (r : Result Bytes) (n : Notifier.Notifier) → with_path r ≡ ok n → n.sock ≡ none
with_path-fresh (ok sun) n e = cc
with_path-fresh (err x) n e = cc

usable-fresh : (a : Option Text) (n : Notifier.Notifier) → usable a ≡ ok n → n.sock ≡ none
usable-fresh none n e = cc
usable-fresh (some []) n e = cc
usable-fresh (some (c ∷ s)) n e = with_path-fresh (encode_unix_address (text (c ∷ s))) n e

module _ (run : Runtime) (abi : Abi) (libc : Libc)
    (closes_fine : (t : Trace) (fd : ℤ) → is_negative (libc t (close fd)).ret ≡ false) where
  answered-Keeps : (q : Request) → Keeps abi in_state (answered run abi libc q)
  answered-Keeps (notify states fields) = notify-Keeps abi libc run states fields
  answered-Keeps (ready t) = notify-Keeps abi libc run [] _
  answered-Keeps (stopping t) = notify-Keeps abi libc run [] _
  answered-Keeps (reloading t) =
      then-Keeps abi libc (on_world-Uses abi (monotonic_us-Keeps abi libc))
        λ now. notify-Keeps abi libc run [] _
  answered-Keeps (status t) = notify-Keeps abi libc run [] _
  answered-Keeps (errno value) = notify-Keeps abi libc run [] _
  answered-Keeps (extend_timeout usec) = notify-Keeps abi libc run [] _
  answered-Keeps (barrier timeout_ms) = barrier-Keeps run abi libc closes_fine timeout_ms
  answered-Keeps (send_raw payload fds) = send_raw-Keeps abi libc payload fds
  answered-Keeps (barrier_finish read_fd timeout_ms) =
      barrier_finish-Uses run abi libc closes_fine read_fd timeout_ms []
  answered-Keeps (main_pid pid) =
      then-Keeps abi libc (on_world-Uses abi (pid_or_own-Keeps abi libc run pid))
        λ p. notify-Keeps abi libc run [] _
  answered-Keeps watchdog_ping = notify-Keeps abi libc run [] _
  answered-Keeps watchdog_trigger = notify-Keeps abi libc run [] _
  answered-Keeps (fdstore fds name poll) = fdstore-Keeps abi libc run fds name poll
  answered-Keeps (fdstore_remove name) = fdstore_remove-Keeps abi libc run name
  answered-Keeps close_socket =
      then-Keeps abi libc (close-Keeps abi libc) λ u. pure-Keeps abi libc true

  in_turn-Keeps : (qs : List Request) → Keeps abi in_state (in_turn run abi libc qs)
  in_turn-Keeps [] = pure-Keeps abi libc tt
  in_turn-Keeps (q ∷ qs) = then-Keeps abi libc (answered-Keeps q) λ b. in_turn-Keeps qs

  -- However a Notifier is used, by any calls of its methods, exceptions caught, with any failure of
  -- any call but close, what its calls opened is
  -- closed again, each descriptor as often as it was opened, but for the socket that the object
  -- holds and for the read ends that barrier_begin handed to the caller.
  pub used-Accounted :
      (us : List Use) (s : State)
      → Accounted abi s.world.trace
          (owned s.notifier.sock)
          (used run abi libc us s).1.world.trace
          ((used run abi libc us s).0 ++ owned (used run abi libc us s).1.notifier.sock)
  unfolding used
  used-Accounted [] s d = refl
  used-Accounted (asks q ∷ us) s d = omega (
    arith,
    ((answered-Keeps q).owes s).accounts d,
    used-Accounted us (answered run abi libc q s).1 d,
  )
  used-Accounted (begins_barrier ∷ us) s d =
      let o = Notifier.barrier_begin run abi libc s in
      let given = got_read o.0 in
      let rest = used run abi libc us o.1 in
      let kept = owned rest.1.notifier.sock in
      omega (
        arith,
        ((barrier_begin-Uses run abi libc closes_fine).owes s).accounts d,
        used-Accounted us o.1 d,
        count-append d given (owned o.1.notifier.sock),
        count-append d rest.0 kept,
        count-append d (given ++ rest.0) kept,
        count-append d given rest.0,
      )

  close_sock-empty :
      (s : State) (sock : Option UnixDatagram)
      → s.notifier.sock ≡ sock
      → (Notifier.close_sock abi libc sock s).1.notifier.sock ≡ none
  unfolding close_datagram
  close_sock-empty s none e = e
  close_sock-empty s (some sock) e = elim (Bool-cases (is_negative sock.fd)) [
    | inl n ↦ rw n refl
    | inr n ↦ rw n refl
  ]

  -- The block, on a new object.
  left-Accounted :
      (qs : List Request) (s : State)
      → s.notifier.sock ≡ none
      → Accounted abi s.world.trace []
          (finally (in_turn run abi libc qs) (Notifier.close abi libc) s).1.world.trace
          []
  unfolding Notifier.close
  left-Accounted qs s fresh d =
      let t = (in_turn run abi libc qs s).1 in
      let body = ((in_turn-Keeps qs).owes s).accounts d in
      let leaves = ((close-Keeps abi libc).owes t).accounts d in
      omega (
        arith,
        body,
        leaves,
        ap (λ o. count d (owned o)) fresh,
        ap (λ o. count d (owned o)) (close_sock-empty t t.notifier.sock refl),
      )

  -- A `with Notifier()` block that calls any methods of the object but barrier_begin, up to
  -- the first exception: whatever
  -- libc answers, if close never fails each descriptor that its calls opened is closed again, as
  -- often as it was opened, when the block is left.
  pub with_notifier-Accounted :
      (qs : List Request) (w : World)
      → Accounted abi w.trace [] (with_notifier run abi libc (in_turn run abi libc qs) w).1.trace []
  unfolding with_notifier new_notifier
  with_notifier-Accounted qs w d =
      go (usable (Environment.lookup "NOTIFY_SOCKET" w.env)) (usable-fresh _)
    where
      block : Notifier.Notifier → M (Unit {0})
      block n v =
          let (x, s) =
            finally (in_turn run abi libc qs) (Notifier.close abi libc)
              (record { notifier = n; world = v }) in
          (x, s.world)

      go :
          (r : Result Notifier.Notifier)
          → ((n : Notifier.Notifier) → r ≡ ok n → n.sock ≡ none)
          → count d [] + (opens abi d (continue r block w).1.trace + closes abi d w.trace)
            ≡ count d [] + (opens abi d w.trace + closes abi d (continue r block w).1.trace)
      go (err e) fresh = refl
      go (ok n) fresh = left-Accounted qs (record { notifier = n; world = w }) (fresh n refl) d
